-- ===== src/Main.antt =====
-- src/main.cpp. What is printed and the setup of the AWS SDK are left out. `fuse_main` is an
-- argument: what it makes of its arguments and of the context, which its callbacks and the
-- threads work on. The static `g_context` is destroyed when the program exits.
pub mod Outcomes
use valkyrie_fs.Base.{
  ℕ, Bool, true, false, Option, none, some, List, [], ◌∷◌, Text, codes, if◌then◌else◌,
}
use valkyrie_fs.Numeric.{ℤ, pos}
use valkyrie_fs.Config.{Config, default_config, parse}
use valkyrie_fs.Fuse.{FuseContext, new_context}
use valkyrie_fs.Fuse.Lifecycle.{Mount, stop_mount, destruct}

-- How the program ends: with a status, or by `std::terminate`.
pub data Exit : Type 0 where
  exits : ℤ → Exit
  aborts : Exit

-- The end of the program with a context in `g_context`.
unfoldable pub leave : Mount → ℤ → Exit
unfolding destruct
leave m status = if destruct m then exits status else aborts

-- The arguments that `main` builds for FUSE.
unfoldable pub fuse_args : Text → Config → List Text
fuse_args program config =
    program
    ∷ config.mount_point
    ∷ codes "-f"
    ∷ codes "-o"
    ∷ codes "ro,allow_other,defer_permissions"
    ∷ []

-- The context as `std::make_unique` gives it, without threads.
abbrev pub mount_of : FuseContext → Mount
mount_of c = record { context = c; workers = []; predictor_thread = false }

-- `main` after the configuration has been parsed. `manifest` is what the configured file holds.
unfoldable pub mounted :
    (List Text → Mount → Mount × ℤ) → Option (List Text) → Text → Config × Bool → Exit
unfolding new_context fuse_args leave
mounted fuse_main manifest program (config, false) = exits (pos 1)
mounted fuse_main manifest program (config, true) = elim (new_context config manifest) [
  | none ↦ aborts
  | some c ↦ let (m, ret) = fuse_main (fuse_args program config) (mount_of c) in leave m ret
]

-- `main`, with the program's name and the arguments after it.
unfoldable pub run_main :
    (List Text → Mount → Mount × ℤ) → Option (List Text) → Text → List Text → Exit
unfolding parse mounted
run_main fuse_main manifest program args =
    mounted fuse_main manifest program (parse default_config args)

-- `signal_handler`
unfoldable pub signal_handler : Option Mount → ℕ → Exit
unfolding stop_mount leave
signal_handler none signum = exits (pos signum)
signal_handler (some m) signum = leave (stop_mount m) (pos signum)
