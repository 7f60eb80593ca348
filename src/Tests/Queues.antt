-- ===== src/Tests/Queues.antt =====
-- A queue of three tasks.
use valkyrie_fs.Base.{ℕ, ◌≡◌, refl, length}
use valkyrie_fs.Types.{urgent, normal, background}
use valkyrie_fs.Queue.{ThreadSafeQueue, new_queue, push}
use valkyrie_fs.Queue.Order.{PopResult, pop-Pops, drain, IsOrdered, drain-IsOrdered}
use mathlib.Core.List.{Perm}

abbrev three : ThreadSafeQueue ℕ
three = push (push (push new_queue 1 background) 2 urgent) 3 normal

three_items : length three.items ≡ 3
unfolding new_queue push
three_items = refl

pop-Pops_example : PopResult three
pop-Pops_example = pop-Pops three

drain-IsOrdered_example : Perm (drain 3 three) three.items × IsOrdered (drain 3 three)
drain-IsOrdered_example = drain-IsOrdered 3 three three_items
