-- ===== src/Tests/Lifecycle.antt =====
-- The theorems on the life of an allocator, at one that is made and one with a node in use.
use lock_free.Common.{ℕ, ◌≡◌, ◌⊎◌, refl, true, false, [], ◌∷◌, arith, ◌∈◌, some}
use lock_free.Types.{Node}
use lock_free.Command.{Returns}
use lock_free.MemoryAddress.{null}
use lock_free.Arena.{Arena, World, prt}
use lock_free.Arena.Core.{max_length, add_mem_chuck}
use lock_free.Arena.Inv.{Fresh, slots}
use lock_free.Arena.Lifecycle.{create, service_round, unsafe_is_valid}
use lock_free.Arena.GrowLoop.{Supply, Started, answered, no_more}
use lock_free.Arena.Start.{create-Started}
use lock_free.Arena.Service.{Served, service_round-Served}
use lock_free.Arena.Valid.{ObjectAt, unsafe_is_valid-ObjectAt}
use lock_free.Tests.Common.{
  config, config-Layout, this, busy_world, busy-Inv, empty_world, empty-Inv, empty-Ready,
}

-- A table with room.
abbrev new_world : World (Node ℕ)
new_world = record empty_world { instances_table = 2000 ∷ null ∷ [] }

new-Fresh : (a : Arena) → a.mem_chunks ≡ [] → Fresh (config 0) a 4096
new-Fresh a e = record {
  fits = omega arith;
  apart = λ x i. rw e refl;
  countable = rw e (omega arith);
}

new-Supply : (a : Arena) → a.mem_chunks ≡ [] → Supply (config 0) a (4096 ∷ [])
new-Supply a e = answered (omega arith) (new-Fresh a e) no_more

create-Started_example :
    Returns (λ _. Started (config 0) this (4096 ∷ [])) (create (config 0) 2 this new_world)
create-Started_example =
    create-Started (config 0) (config-Layout 0) this 2 new_world (omega arith) refl (omega arith)
      new-Supply (omega arith)

service_round-Served_example :
    Returns
      (λ more w'.
        (more ≡ true) × Served (config 3) (config-Layout 3) this (λ _. false) 0 true empty_world w')
      (service_round (config 3) (max_length (config 3)) (add_mem_chuck (config 3)) this empty_world)
service_round-Served_example =
    service_round-Served (config 3) (config-Layout 3) this empty_world (empty-Inv 3) (empty-Ready 3)

unsafe_is_valid-ObjectAt_example :
    ((p : ℕ)
      → p ∈ slots (config 0) (busy_world.arena this)
      → unsafe_is_valid (config 0) this (prt (config 0) p) busy_world ≡ some (true, busy_world))
    × (unsafe_is_valid (config 0) this null busy_world ≡ some (false, busy_world))
    × ((userdata : ℕ)
        → (unsafe_is_valid (config 0) this userdata busy_world ≡ some (false, busy_world))
          ⊎ ((unsafe_is_valid (config 0) this userdata busy_world ≡ some (true, busy_world))
              × ObjectAt (config 0) userdata (slots (config 0) (busy_world.arena this))))
unsafe_is_valid-ObjectAt_example =
    unsafe_is_valid-ObjectAt (config 0) (config-Layout 0) this busy-Inv (refl, omega arith, tt)
