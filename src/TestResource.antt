-- ===== src/TestResource.antt =====
-- cppcon/allocator/pmr.cpp: `test_resource`, which counts the bytes that it asks another resource for.
pub mod Counts
mod Tests
use cs_learning_notes.Base.{ℕ, ◌+◌, ◌-◌, ◌%◌, Option, none, some, List, [], ◌∷◌, ◌++◌}

-- A `std::size_t` is a number below this.
abbrev pub size_limit : ℕ
size_limit = 18446744073709551616

-- The resource behind the pointer `parent`, with its state; `none` is the exception of an allocation.
pub record Parent (S : Type 0) : Type 0 where
  pub allocate : (bytes alignment : ℕ) → S → Option (ℕ × S)
  pub deallocate : (p bytes alignment : ℕ) → S → S

-- A line of the output.
pub data Line : Type 0 where
  allocated : (bytes outstanding : ℕ) → Line
  deallocated : (bytes outstanding : ℕ) → Line

-- `cout` is what has been printed.
pub record TestResource (S : Type 0) : Type 0 where
  pub parent : S
  pub bytes_deallocated : ℕ
  pub bytes_allocated : ℕ
  pub bytes_outstanding : ℕ
  pub cout : List Line

abbrev pub fresh : {S : Type 0} → S → TestResource S
fresh s = record {
  parent = s;
  bytes_deallocated = 0;
  bytes_allocated = 0;
  bytes_outstanding = 0;
  cout = [];
}

module _ {S : Type 0} (lib : Parent S) where
  abbrev pub handed : TestResource S → Option (ℕ × S) → Option ℕ × TestResource S
  handed r none = (none, r)
  handed r (some (p, s)) = (some p, record r { parent = s })

  unfoldable pub do_allocate : (bytes alignment : ℕ) → TestResource S → Option ℕ × TestResource S
  do_allocate bytes alignment r =
      let total = (r.bytes_allocated + bytes) % size_limit in
      let outstanding = (r.bytes_outstanding + bytes) % size_limit in
      handed
        (record r {
          bytes_allocated = total;
          bytes_outstanding = outstanding;
          cout = r.cout ++ allocated total outstanding ∷ [];
        })
        (lib.allocate bytes alignment r.parent)

  unfoldable pub do_deallocate : (p bytes alignment : ℕ) → TestResource S → TestResource S
  do_deallocate p bytes alignment r =
      let total = (r.bytes_deallocated + bytes) % size_limit in
      let outstanding = (r.bytes_outstanding + (size_limit - bytes)) % size_limit in
      record r {
        bytes_deallocated = total;
        bytes_outstanding = outstanding;
        cout = r.cout ++ deallocated total outstanding ∷ [];
        parent = lib.deallocate p bytes alignment r.parent;
      }
