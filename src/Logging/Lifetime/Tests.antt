-- ===== src/Logging/Lifetime/Tests.antt =====
-- Messages that are made, moved, assigned and destroyed, and the theorems about them at such runs.
use server_dev_lib.Base.{ℕ, ◌≤◌, ◌≡◌, ◌≢◌, refl, Bool, true, none, some, arith}
use server_dev_lib.Base.Map.{or_else}
use server_dev_lib.Logging.Lifetime.{
  World, empty_world, Op, perform, destruct, construct, move_assign,
}
use server_dev_lib.Logging.Lifetime.Owned.{Reach, messages_are_safe}
use server_dev_lib.Logging.Lifetime.Arrives.{messages_arrive, assignment_leaks}

abbrev followed : World → Op → World
unfolding perform destruct construct empty_world move_assign
followed w op = or_else (perform true w op) w

-- One message; it is destroyed, and then the logger destroys the object that it has made of it.
abbrev one : World
one = followed empty_world Op.make

abbrev handed : World
handed = followed one (Op.destroy 0)

abbrev logged : World
logged = followed handed (Op.destroy 1)

-- Two messages.
abbrev two : World
two = followed one Op.make

one-Reach : Reach true true one
unfolding perform destruct construct empty_world move_assign
one-Reach = Reach.next Op.make Reach.start refl

two-Reach : Reach true true two
unfolding perform destruct construct empty_world move_assign
two-Reach = Reach.next Op.make one-Reach refl

handed-Reach : Reach true true handed
unfolding perform destruct construct empty_world move_assign
handed-Reach = Reach.next (Op.destroy 0) one-Reach refl

logged-Reach : Reach true true logged
unfolding perform destruct construct empty_world move_assign
logged-Reach = Reach.next (Op.destroy 1) handed-Reach refl

-- Destroying an object twice is an error of the caller.
destroys_once : perform true logged (Op.destroy 0) ≡ none
unfolding perform destruct construct empty_world move_assign
destroys_once = refl

messages_are_safe_example :
    let i : ℕ = 1 in
    (i ≡ i)
    × ((flushed : Bool) × (handed.store 0 ≡ some flushed))
    × (handed.sent 0 ≤ 1)
    × ((w' : World) × (destruct true handed 1 ≡ some w'))
unfolding perform destruct construct empty_world move_assign
messages_are_safe_example = messages_are_safe handed 1 1 0 handed-Reach refl refl

messages_arrive_example : (logged.sent 0 ≡ 1) × (logged.store 0 ≡ none)
unfolding perform destruct construct empty_world move_assign
messages_arrive_example = messages_arrive logged 0 logged-Reach (λ i. ground arith) (omega arith)

assignment_leaks_example :
    ((followed two (Op.assign 0 1)).object 0 ≢ some (some 0))
    × ((followed two (Op.assign 0 1)).store 0 ≡ two.store 0)
    × (two.store 0 ≢ none)
unfolding perform destruct construct empty_world move_assign
assignment_leaks_example =
    assignment_leaks two (followed two (Op.assign 0 1)) 0 1 0 0 1 two-Reach refl refl (λ e. cc) refl
