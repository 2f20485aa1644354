-- ===== src/Ipc/Tests.antt =====
-- Runs of the message channels, and the theorems at concrete states.
use avaria.Prelude.{ℕ, ◌≡◌, refl, arith, true, false, none, some, List, [], ◌∷◌}
use avaria.Ipc.{Message, empty_message, new_ring, start, Call}
use avaria.Ipc.{create, post, fetch, destroy, created, posted, fetched, destroyed, serve_all}
use avaria.Ipc.Rings
use avaria.Ipc.Rings.{queue, push_refines, pop_refines}
use avaria.Ipc.Channels.{start-IsValid, serve_all_refines}
use avaria.Ipc.Table.{service}
use avaria.Ipc.Service
use avaria.Ipc.Lock
use avaria.Ipc.Lock.{
  State, IsExclusive, Reach, here, next, Reach-exclusive, outside, trying, inside,
}

abbrev hello : Message
hello = record empty_message { src = 1; msg_type = 7 }

abbrev script : List Call
script =
    post 0 hello
    ∷ create 5
    ∷ post 0 hello
    ∷ fetch 0
    ∷ fetch 0
    ∷ destroy 0
    ∷ post 0 hello
    ∷ create 6
    ∷ []

script_runs :
    serve_all start script
    ≡ posted false
      ∷ created (some 0)
      ∷ posted true
      ∷ fetched (some hello)
      ∷ fetched none
      ∷ destroyed
      ∷ posted false
      ∷ created (some 1)
      ∷ []
unfolding serve_all
script_runs = refl

new_ring-IsValid : Rings.IsValid new_ring
new_ring-IsValid = record { slots = refl; head_in = omega arith; tail_in = omega arith }

serve_all_refines_example : serve_all start script ≡ Service.run (service start) script
serve_all_refines_example = serve_all_refines script start-IsValid

abbrev free : State
free = record { locked = 0; place = λ _. outside }

free-IsExclusive : IsExclusive free
free-IsExclusive = record { set_inside = λ i h. absurd (cc); one_inside = λ i j h k. absurd (cc) }

abbrev asking : State
asking = record free { place = Lock.move free.place 3 trying }

abbrev taken : State
taken = record { locked = 1; place = Lock.move asking.place 3 inside }

takes : Reach free taken
takes = next (next here (Lock.enter 3 refl)) (Lock.exchange 3 refl refl)

Reach-exclusive_example : ◌≡◌ {A = ℕ} 3 3
Reach-exclusive_example = Reach-exclusive free-IsExclusive takes 3 3 refl refl
