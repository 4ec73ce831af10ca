-- ===== src/EventLoop/Tests.antt =====
-- A run of EventLoop, and its theorems at the state that it reaches.
use quick_cmake.Prelude.{ℕ, ◌≡◌, refl, true, Option, none, some, List, [], ◌∷◌, ◌++◌}
use quick_cmake.EventLoop.{
  Loop, waiting, post, may_leave, front, advance_from, advance, Reachable, start, posts, advances,
}
use quick_cmake.EventLoop.Fifo.{callable, uncalled, called_in_order, waits_idle}

abbrev posted : List (Option ℕ)
posted = some 7 ∷ none ∷ []

-- Two posts, a call of run, both tasks, and the wait.
abbrev idle : Loop ℕ
idle = record { queue = []; running = true; place = waiting; local = []; called = 7 ∷ [] }

idle-Reachable : Reachable posted idle
unfolding advance advance_from may_leave front post
idle-Reachable = advances refl (
    advances refl (
      advances refl (
        advances refl (
          advances refl (
            advances refl (
              advances refl
                (advances refl (advances refl (posts none (posts (some 7) start))))))))))

idle-stuck : advance idle ≡ none
unfolding advance advance_from may_leave
idle-stuck = refl

called_in_order_example :
    callable posted
    ≡ idle.called ++ (callable (uncalled idle.place idle.local) ++ callable idle.queue)
called_in_order_example = called_in_order posted idle idle-Reachable

waits_idle_example : (idle.running ≡ true) × (callable posted ≡ idle.called)
waits_idle_example = waits_idle posted idle idle-Reachable idle-stuck
