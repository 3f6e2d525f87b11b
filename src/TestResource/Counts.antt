-- ===== src/TestResource/Counts.antt =====
-- What the counters of `test_resource` say of the calls.
use cs_learning_notes.Base.{
  ℕ, ◌+◌, ◌-◌, ◌%◌, ◌≤◌, ◌<◌, ◌≡◌, refl, Option, none, some, List, [], ◌∷◌, arith,
}
use cs_learning_notes.TestResource.{
  size_limit, Parent, TestResource, fresh, do_allocate, do_deallocate,
}

-- A call, as the users of the resource make it.
pub data Call : Type 0 where
  allocate : (bytes alignment : ℕ) → Call
  deallocate : (p bytes alignment : ℕ) → Call

-- The bytes that users hold, and the bytes of the allocations that threw.
pub record Held : Type 0 where
  pub live : ℕ
  pub failed : ℕ

abbrev pub nothing_held : Held
nothing_held = record { live = 0; failed = 0 }

abbrev pub received : ℕ → Option ℕ → Held → Held
received bytes none h = record h { failed = h.failed + bytes }
received bytes (some p) h = record h { live = h.live + bytes }

-- A resource, and what its users hold.
pub record Use (S : Type 0) : Type 0 where
  pub resource : TestResource S
  pub held : Held

module _ {S : Type 0} (lib : Parent S) where
  abbrev pub call : Call → Use S → Use S
  call (allocate bytes alignment) u =
      let (p, r) = do_allocate lib bytes alignment u.resource in
      record { resource = r; held = received bytes p u.held }
  call (deallocate p bytes alignment) u = record {
    resource = do_deallocate lib p bytes alignment u.resource;
    held = record u.held { live = u.held.live - bytes };
  }

  unfoldable pub calls : List Call → Use S → Use S
  calls [] u = u
  calls (c ∷ cs) u = calls cs (call c u)

  -- Sizes are of type `std::size_t`, and only what is held is given back.
  abbrev pub Proper : Call → Use S → Type 0
  Proper (allocate bytes alignment) u = bytes < size_limit
  Proper (deallocate p bytes alignment) u = (bytes < size_limit) × (bytes ≤ u.held.live)

  unfoldable pub AllProper : List Call → Use S → Type 0
  AllProper [] u = Unit {0}
  AllProper (c ∷ cs) u = Proper c u × AllProper cs (call c u)

-- The counters of one call, on numbers: `o` is outstanding, `d` deallocated, `a` allocated, `l` live, `f` failed.
fail_held :
    (o l f b : ℕ) → o ≡ (l + f) % size_limit → (o + b) % size_limit ≡ (l + (f + b)) % size_limit
fail_held o l f b e = omega arith

take_held :
    (o l f b : ℕ) → o ≡ (l + f) % size_limit → (o + b) % size_limit ≡ (l + b + f) % size_limit
take_held o l f b e = omega arith

give_held :
    (o l f b : ℕ)
    → o ≡ (l + f) % size_limit
    → b ≤ l
    → b < size_limit
    → (o + (size_limit - b)) % size_limit ≡ (l - b + f) % size_limit
give_held o l f b e le lt = omega arith

take_balance :
    (o d a b : ℕ)
    → (o + d) % size_limit ≡ a
    → ((o + b) % size_limit + d) % size_limit ≡ (a + b) % size_limit
take_balance o d a b e = omega arith

give_balance :
    (o d a b : ℕ)
    → (o + d) % size_limit ≡ a
    → b < size_limit
    → ((o + (size_limit - b)) % size_limit + (d + b) % size_limit) % size_limit ≡ a
give_balance o d a b e lt = omega arith

module _ {S : Type 0} (lib : Parent S) where
  pub record Counted (u : Use S) : Type 0 where
    pub held : u.resource.bytes_outstanding ≡ (u.held.live + u.held.failed) % size_limit
    pub balance :
        (u.resource.bytes_outstanding + u.resource.bytes_deallocated) % size_limit
        ≡ u.resource.bytes_allocated
    pub bounded : u.resource.bytes_deallocated < size_limit

  allocate-Counted :
      (bytes alignment : ℕ) (u : Use S)
      → bytes < size_limit
      → Counted u
      → Counted (call lib (allocate bytes alignment) u)
  unfolding do_allocate
  allocate-Counted bytes alignment u lt h = go (lib.allocate bytes alignment u.resource.parent) refl
    where
      go :
          (o : Option (ℕ × S))
          → lib.allocate bytes alignment u.resource.parent ≡ o
          → Counted (call lib (allocate bytes alignment) u)
      go none e = rw e (record {
        held = fail_held _ _ _ bytes h.held;
        balance = take_balance _ _ _ bytes h.balance;
        bounded = h.bounded;
      })
      go (some (p, s)) e = rw e (record {
        held = take_held _ _ _ bytes h.held;
        balance = take_balance _ _ _ bytes h.balance;
        bounded = h.bounded;
      })

  deallocate-Counted :
      (p bytes alignment : ℕ) (u : Use S)
      → (bytes < size_limit) × (bytes ≤ u.held.live)
      → Counted u
      → Counted (call lib (deallocate p bytes alignment) u)
  unfolding do_deallocate
  deallocate-Counted p bytes alignment u (lt, le) h = record {
    held = give_held _ _ _ bytes h.held le lt;
    balance = give_balance _ _ _ bytes h.balance lt;
    bounded = omega arith;
  }

  calls-Counted :
      (cs : List Call) (u : Use S) → AllProper lib cs u → Counted u → Counted (calls lib cs u)
  unfolding calls AllProper
  calls-Counted [] u ok h = h
  calls-Counted (allocate bytes alignment ∷ cs) u ok h =
      calls-Counted cs (call lib (allocate bytes alignment) u) ok.1
        (allocate-Counted bytes alignment u ok.0 h)
  calls-Counted (deallocate p bytes alignment ∷ cs) u ok h =
      calls-Counted cs (call lib (deallocate p bytes alignment) u) ok.1
        (deallocate-Counted p bytes alignment u ok.0 h)

  abbrev pub at_first : S → Use S
  at_first s = record { resource = fresh s; held = nothing_held }

  -- Whatever the parent does, `bytes_outstanding` is what the users hold and what the allocations that threw asked
  -- for, and with `bytes_deallocated` it is `bytes_allocated`, all modulo 2^64, if every size is a
  -- `std::size_t` and only what is held is given back.
  pub outstanding_counts :
      (s : S) (cs : List Call)
      → AllProper lib cs (at_first s)
      → ((calls lib cs (at_first s)).resource.bytes_outstanding
          ≡ ((calls lib cs (at_first s)).held.live + (calls lib cs (at_first s)).held.failed)
            % size_limit)
        × (((calls lib cs (at_first s)).resource.bytes_outstanding
                + (calls lib cs (at_first s)).resource.bytes_deallocated)
              % size_limit
            ≡ (calls lib cs (at_first s)).resource.bytes_allocated)
  outstanding_counts s cs ok =
      let h =
        calls-Counted cs (at_first s) ok
          (record { held = refl; balance = refl; bounded = omega arith }) in
      (h.held, h.balance)
