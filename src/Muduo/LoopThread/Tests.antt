-- ===== src/Muduo/LoopThread/Tests.antt =====
-- A loop that is started and destroyed at once.
use learn_note.Prelude.{◌≡◌, refl}
use learn_note.Muduo.LoopThread.{
  LoopThread, init, start, post, publish, enter_loop, destroy, waiting, owning, joining, Reach,
  here, next, Step, starts, posts, launched, publishes, takes,
}
use learn_note.Muduo.LoopThread.Handover.{quit-enter_loop}

abbrev handed : LoopThread
handed = record (publish (record (post (start init)) { owner = waiting })) { owner = owning }

handed-Reach : Reach handed
unfolding init start post publish
handed-Reach =
    next
      (next (next (next (next here (starts refl)) (posts refl)) (launched refl refl))
        (publishes refl))
      (takes refl refl)

quit-enter_loop_example :
    Reach (enter_loop (destroy handed))
    × ((enter_loop (destroy handed)).owner ≡ joining)
    × ¬ ((t : LoopThread) × Step (enter_loop (destroy handed)) t)
unfolding init start post publish
quit-enter_loop_example = quit-enter_loop handed handed-Reach refl refl
