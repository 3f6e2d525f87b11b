-- ===== src/TestResource/Tests.antt =====
-- The counters on concrete calls.
use cs_learning_notes.Base.{
  ℕ, ◌+◌, ◌%◌, ◌<◌, ◌≤◌, ◌≡◌, refl, none, some, List, [], ◌∷◌, arith, ltb, true, if◌then◌else◌,
}
use cs_learning_notes.TestResource.{Parent, size_limit, do_allocate, do_deallocate}
use cs_learning_notes.TestResource.Counts.{
  Call, allocate, deallocate, calls, AllProper, at_first, outstanding_counts,
}

-- A parent that hands out addresses one after another, and has 100 bytes.
abbrev monotonic : Parent ℕ
monotonic = record {
  allocate =
      λ bytes alignment used. if ltb (used + bytes) 101 then some (used, used + bytes) else none;
  deallocate = λ p bytes alignment used. used;
}

-- 40 bytes and 30 bytes are handed out, 50 are refused, and the 40 are given back.
abbrev some_calls : List Call
some_calls = allocate 40 8 ∷ allocate 30 8 ∷ allocate 50 8 ∷ deallocate 0 40 8 ∷ []

counters : (calls monotonic some_calls (at_first monotonic 0)).resource.bytes_outstanding ≡ 80
unfolding calls do_allocate do_deallocate
counters = refl

small_size : (n : ℕ) → ltb n 101 ≡ true → n < size_limit
small_size n h = ground arith

forty_held : 40 ≤ 70
forty_held = omega arith

proper : AllProper monotonic some_calls (at_first monotonic 0)
unfolding AllProper do_allocate
proper = (
  small_size 40 refl,
  (small_size 30 refl, (small_size 50 refl, ((small_size 40 refl, forty_held), tt))),
)

outstanding_counts_example :
    ((calls monotonic some_calls (at_first monotonic 0)).resource.bytes_outstanding
      ≡ ((calls monotonic some_calls (at_first monotonic 0)).held.live
          + (calls monotonic some_calls (at_first monotonic 0)).held.failed)
        % size_limit)
    × (((calls monotonic some_calls (at_first monotonic 0)).resource.bytes_outstanding
            + (calls monotonic some_calls (at_first monotonic 0)).resource.bytes_deallocated)
          % size_limit
        ≡ (calls monotonic some_calls (at_first monotonic 0)).resource.bytes_allocated)
outstanding_counts_example = outstanding_counts monotonic 0 some_calls proper
