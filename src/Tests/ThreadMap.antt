-- ===== src/Tests/ThreadMap.antt =====
-- The theorems on the thread map at a map of two threads.
use lock_free.Common.{[], ◌∷◌, arith}
use lock_free.ThreadMap.{ThreadMap, add, del}
use lock_free.ThreadMap.Laws.{IsMap, Registered, Unregistered, add-Registered, del-Unregistered}

abbrev two_threads : ThreadMap
two_threads = record { map = (70, 3) ∷ (50, 2) ∷ []; counter = 3 }

two_threads-IsMap : IsMap two_threads
two_threads-IsMap = record {
  distinct = λ s t id a b. ground (arith, a, b);
  below = λ t id a. ground (arith, a);
}

add-Registered_example :
    Registered 32 60 two_threads (add 32 60 two_threads).0 (add 32 60 two_threads).1
add-Registered_example = add-Registered 32 60 two_threads two_threads-IsMap (omega arith)

del-Unregistered_example : Unregistered 50 two_threads (del 50 two_threads).0 (del 50 two_threads).1
del-Unregistered_example = del-Unregistered 50 two_threads two_threads-IsMap
