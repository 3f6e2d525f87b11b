-- ===== src/MpmcQueue/Steps.antt =====
-- Every step of the multi-producer queue keeps its invariant.
use cs_learning_notes.Base.{ℕ, ◌≡◌, ◌≢◌, ◌⊎◌, inl, inr, refl, ◌∙◌, Option, none, some, arith}
use cs_learning_notes.Interleaving.{Kept}
use cs_learning_notes.Containers.{Event, Fifo}
use cs_learning_notes.MpmcQueue.{
  Node, Memory, Pc, Move, idle, push_load, push_data, own_next, own_tail, help_next, help_new,
  help_tail, pop_load, pop_test, pop_next, pop_cas, pop_take, returned, push_new, load_tail,
  data_win, data_fail, own_next_win, own_next_fail, own_tail_win, own_tail_fail, help_next_win,
  help_next_fail, help_allocate, help_tail_win, help_tail_fail, pop_begin, load_head, test_empty,
  test_more, load_next, pop_win, pop_fail, take, leave,
}
use cs_learning_notes.MpmcQueue.Roles.{past}
use cs_learning_notes.MpmcQueue.Invariant.{View, items, Global, Local, Pair}
use cs_learning_notes.MpmcQueue.Frames.{quiet}
use cs_learning_notes.MpmcQueue.Writes.{keep_new, keep_data, keep_link}
use cs_learning_notes.MpmcQueue.Ends.{keep_tail, keep_head, keep_empty, next_set, still_spare}

filled_now :
    {A : Type 0} (m : Memory A) (t : ℕ) (n : Node A)
    → m.nodes t ≡ some n
    → (k : Node A) × (m.nodes t ≡ some k) × (k.item ≢ none)
    → n.item ≢ none
filled_now m t n e (k, f, c) = λ z. c (ground arith)

more :
    {A : Type 0} (x : View A) (m : Memory A) (a : ℕ)
    → a ≢ m.tail
    → (x.role a ≡ past) ⊎ ((a ≡ m.head) × Unit {0})
    → (x.role a ≡ past) ⊎ ((a ≡ m.head) × (m.head ≢ m.tail))
more x m a ne (inl r) = inl r
more x m a ne (inr h) = inr (h.0, λ z. ne (h.0 ∙ z))

-- Each step of any thread keeps what is known, and does to the queue what its event says.
pub keep :
    {A : Type 0} (x : View A) (m : Memory A) (i : ℕ) (p : Pc A) (e : Option (Event A))
    (m' : Memory A) (p' : Pc A)
    → Move i m p e m' p'
    → Global x m
    → Local x m i p
    → Kept items Fifo Global Local Pair x m i p e m' p'
keep x m i p e m' p' (push_new y a f nn) g l =
    keep_new x m i idle a (push_load y a) f nn g (ground arith)
keep x m i p e m' p' (load_tail {x = y} {p = a}) g l =
    quiet x m i (push_load y a) none (push_data y a m.tail) refl g (ground (arith, g.tail_role))
keep x m i p e m' p' (data_win {x = y} {p = a} {t} {n} f h) g l = keep_data x m i y a t n f h g l
keep x m i p e m' p' (data_fail {x = y} {p = a} {t} {n} f h) g l =
    quiet x m i (push_data y a t) none (help_next y a t) refl g (record {
      makes = l.makes;
      visits = l.visits;
      fills = (n, f, λ z. cc);
      links = tt;
      pops = tt;
      takes = tt;
    })
keep x m i p e m' p' (own_next_win {p = a} {t} {n} f h) g l =
    keep_link x m i (own_next a t) a t n (own_tail t a) f h (filled_now m t n f l.fills) l.visits
      l.makes.0 l.makes.1 g
      (record {
        makes = tt;
        visits = tt;
        fills = tt;
        links = (record n { next = a }, ground arith, refl, ground (arith, g.no_null));
        pops = tt;
        takes = tt;
      })
keep x m i p e m' p' (own_next_fail {p = a} {t} {n} f h) g l =
    quiet x m i (own_next a t) none (own_tail t n.next) refl g (record {
      makes = tt;
      visits = tt;
      fills = tt;
      links = (n, f, refl, h);
      pops = tt;
      takes = tt;
    })
keep x m i p e m' p' (own_tail_win {t} {p = q} {n} {y} f h k) g l =
    let (n', f', next, nn) = l.links in
    keep_tail x m i (own_tail t q) t q n y idle f h k (ground arith) nn g (ground arith)
keep x m i p e m' p' (own_tail_fail {t} {p = q} f) g l =
    quiet x m i (own_tail t q) none idle refl g (ground arith)
keep x m i p e m' p' (help_next_win {x = y} {p = a} {t} {n} f h) g l =
    keep_link x m i (help_next y a t) a t n (help_new y t a) f h (filled_now m t n f l.fills)
      l.visits l.makes.0 l.makes.1 g
      (record {
        makes = tt;
        visits = tt;
        fills = tt;
        links = (record n { next = a }, ground arith, refl, ground (arith, g.no_null));
        pops = tt;
        takes = tt;
      })
keep x m i p e m' p' (help_next_fail {x = y} {p = a} {t} {n} f h) g l =
    quiet x m i (help_next y a t) none (help_tail y a t n.next) refl g (record {
      makes = l.makes;
      visits = tt;
      fills = tt;
      links = (n, f, refl, h);
      pops = tt;
      takes = tt;
    })
keep x m i p e m' p' (help_allocate {x = y} {t} {q} a f nn) g l =
    let (n, h, next, nq) = l.links in
    keep_new x m i (help_new y t q) a (help_tail y a t q) f nn g (record {
      makes = (ground arith, ground arith);
      visits = tt;
      fills = tt;
      links = (n, ground arith, next, nq);
      pops = tt;
      takes = tt;
    })
keep x m i p e m' p' (help_tail_win {x = z} {y} {p = a} {t} {q} {n} f h k) g l =
    let (n', f', next, nn) = l.links in
    keep_tail x m i (help_tail z a t q) t q n y (push_load z a) f h k (ground arith) nn g (record {
      makes = (still_spare x m i t q n a f h (ground arith) nn g l.makes.0, l.makes.1);
      visits = tt;
      fills = tt;
      links = tt;
      pops = tt;
      takes = tt;
    })
keep x m i p e m' p' (help_tail_fail {x = z} {p = a} {t} {q} f) g l =
    quiet x m i (help_tail z a t q) none (push_load z a) refl g (ground arith)
keep x m i p e m' p' pop_begin g l = quiet x m i idle none pop_load refl g (ground arith)
keep x m i p e m' p' load_head g l =
    quiet x m i pop_load none (pop_test m.head) refl g (record {
      makes = tt;
      visits = tt;
      fills = tt;
      links = tt;
      pops = inr (refl, tt);
      takes = tt;
    })
keep x m i p e m' p' (test_empty {a} f) g l = keep_empty x m i a f g l
keep x m i p e m' p' (test_more {a} f) g l =
    quiet x m i (pop_test a) none (pop_next a) refl g (record {
      makes = tt;
      visits = tt;
      fills = tt;
      links = tt;
      pops = more x m a f l.pops;
      takes = tt;
    })
keep x m i p e m' p' (load_next {a} {n} f) g l =
    quiet x m i (pop_next a) none (pop_cas a n.next) refl g (record {
      makes = tt;
      visits = tt;
      fills = tt;
      links = (n, f, refl, next_set x m i a n f g l.pops);
      pops = l.pops;
      takes = tt;
    })
keep x m i p e m' p' (pop_win {a} {b} {n} {x = y} f h k) g l = keep_head x m i a b n y f h k g l
keep x m i p e m' p' (pop_fail {a} {b} f) g l =
    quiet x m i (pop_cas a b) none (pop_test m.head) refl g (record {
      makes = tt;
      visits = tt;
      fills = tt;
      links = tt;
      pops = inr (refl, tt);
      takes = tt;
    })
keep x m i p e m' p' (take {a} {x = y} {y = z} f h) g l =
    quiet x m i (pop_take a y) none (returned (some z)) refl g (ground arith)
keep x m i p e m' p' (leave {r}) g l = quiet x m i (returned r) none idle refl g (ground arith)
