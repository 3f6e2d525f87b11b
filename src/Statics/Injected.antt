-- ===== src/Statics/Injected.antt =====
-- What the clients of cpp/c++_software_design/singleton/singleton.cpp are promised, told from the calls that were
-- made so far, the newest first.
use cs_learning_notes.Base.{
  ℕ, ◌≡◌, refl, sym, inl, inr, Bool-cases, Bool, true, false, not, ◌&&◌, Option, none, some, List,
  [], ◌∷◌, ◌++◌, ◌==◌, if◌then◌else◌, arith,
}
use cs_learning_notes.Base.Cmd.{Cmd, pure, ◌>>=◌}
use cs_learning_notes.Statics.Singleton.{
  Persistence, Memory, Call, read_it, write_it, set_it, null, at_start, init_instance,
  get_persistence_interface, read, write, call, run,
}

-- Some call has asked for the interface.
abbrev pub consulted : List Call → Bool
consulted [] = false
consulted (set_it p ∷ h) = consulted h
consulted (_ ∷ h) = true

-- The pointer injected last, or null
abbrev pub injected : List Call → ℕ
injected [] = null
injected (set_it p ∷ h) = p
injected (_ ∷ h) = injected h

module _ {W : Type 0} (lib : Persistence W) where
  -- The pointer that a client gets: the one injected last, but the Database where none was injected when the interface
  -- was first asked for.
  abbrev pub used : List Call → ℕ
  used [] = lib.db
  used (set_it p ∷ h) = if (p == null) && not (consulted h) then lib.db else p
  used (_ ∷ h) = used h

  -- The Database is made when the interface is first asked for and none was injected.
  abbrev pub ready : List Call → W → W
  ready h w = if (injected h == null) && not (consulted h) then lib.construct_database w else w

  abbrev pub asked : (ℕ → W → Bool × W) → List Call → Cmd W (List Bool)
  asked does h w =
      let (b, w') = does (used h) (ready h w) in if used h == null then none else some (b ∷ [], w')

  abbrev pub answer : List Call → Call → Cmd W (List Bool)
  answer h read_it w = asked (λ p w. (lib.do_read p w, w)) h w
  answer h write_it w = asked lib.do_write h w
  answer h (set_it p) w = some ([], w)

  unfoldable pub expected : List Call → List Call → Cmd W (List Bool)
  expected h [] = pure []
  expected h (c ∷ cs) = do bs ← answer h c; rest ← expected (c ∷ h) cs; pure (bs ++ rest)

  -- The state after the calls `h`.
  record Agrees (h : List Call) (m : Memory W) : Type 0 where
    pub init : m.init ≡ consulted h
    pub instance_ : m.instance_ ≡ (if consulted h then used h else injected h)

  fresh_used :
      (h : List Call)
      → consulted h ≡ false
      → used h ≡ (if injected h == null then lib.db else injected h)
  fresh_used [] e = refl
  fresh_used (set_it p ∷ h) e = ground arith
  fresh_used (read_it ∷ h) e = absurd (ground arith)
  fresh_used (write_it ∷ h) e = absurd (ground arith)

  get-used :
      (h : List Call) (m : Memory W)
      → Agrees h m
      → get_persistence_interface lib m
        ≡ (used h, record { instance_ = used h; init = true; world = ready h m.world })
  unfolding get_persistence_interface init_instance
  get-used h m a = go (consulted h) refl
    where
      go :
          (b : Bool)
          → consulted h ≡ b
          → get_persistence_interface lib m
            ≡ (used h, record { instance_ = used h; init = true; world = ready h m.world })
      go true e = ground (arith, a.init, a.instance_)
      go false e = ground (arith, a.init, a.instance_, fresh_used h e)

  -- One call does what it should, and leaves the state of the calls so far.
  Fits : List Call → Call → W → Option (List Bool × Memory W) → Type 0
  Fits h c w none = answer h c w ≡ none
  Fits h c w (some (bs, m')) = (answer h c w ≡ some (bs, m'.world)) × Agrees (c ∷ h) m'

  consulted-Agrees :
      (h : List Call) (c : Call) (w : W)
      → consulted (c ∷ h) ≡ true
      → used (c ∷ h) ≡ used h
      → Agrees (c ∷ h) (record { instance_ = used h; init = true; world = w })
  consulted-Agrees h c w e u = record { init = sym e; instance_ = rw e (sym u) }

  call-Fits :
      (h : List Call) (c : Call) (m : Memory W) → Agrees h m → Fits h c m.world (call lib c m)
  unfolding Fits read write
  call-Fits h read_it m a = rw (get-used h m a) (elim (Bool-cases (used h == null)) [
    | inl e ↦ rw (Fits, read, write, e) (rw (answer, e) refl)
    | inr e ↦
        rw (Fits, read, write, e) (rw (answer, e) refl, consulted-Agrees h read_it _ refl refl)
  ])
  call-Fits h write_it m a = rw (get-used h m a) (elim (Bool-cases (used h == null)) [
    | inl e ↦ rw (Fits, read, write, e) (rw (answer, e) refl)
    | inr e ↦
        rw (Fits, read, write, e) (rw (answer, e) refl, consulted-Agrees h write_it _ refl refl)
  ])
  call-Fits h (set_it p) m a = (refl, record { init = a.init; instance_ = kept (consulted h) })
    where
      kept : (b : Bool) → p ≡ (if b then (if (p == null) && not b then lib.db else p) else p)
      kept b = ground arith

  -- The results and what became of the world
  abbrev pub outcome : Option (List Bool × Memory W) → Option (List Bool × W)
  outcome none = none
  outcome (some (bs, m)) = some (bs, m.world)

  outcome-bind :
      (bs : List Bool) (o : Option (List Bool × Memory W)) (o' : Option (List Bool × W))
      → outcome o ≡ o'
      → outcome (elim o [ none ↦ none | some (r, m) ↦ some (bs ++ r, m) ])
        ≡ (elim o' [ none ↦ none | some (r, w) ↦ some (bs ++ r, w) ])
  outcome-bind bs none o' e = rw (sym e) refl
  outcome-bind bs (some r) o' e = rw (sym e) refl

  -- A call, and what the rest of the program does.
  then-expected :
      (h : List Call) (c : Call) (cs : List Call) (m : Memory W) (o : Option (List Bool × Memory W))
      → call lib c m ≡ o
      → Fits h c m.world o
      → ((m' : Memory W)
          → Agrees (c ∷ h) m'
          → outcome (run lib cs m') ≡ expected (c ∷ h) cs m'.world)
      → outcome (run lib (c ∷ cs) m) ≡ expected h (c ∷ cs) m.world
  unfolding run expected Fits
  then-expected h c cs m none e f k = rw (run, expected, ◌>>=◌, e, f) refl
  then-expected h c cs m (some (bs, m')) e (f, a) k =
      rw (run, expected, ◌>>=◌, e, f)
        (outcome-bind bs (run lib cs m') (expected (c ∷ h) cs m'.world) (k m' a))

  run-expected :
      (h : List Call) (cs : List Call) (m : Memory W)
      → Agrees h m
      → outcome (run lib cs m) ≡ expected h cs m.world
  unfolding run expected
  run-expected h [] m a = refl
  run-expected h (c ∷ cs) m a =
      then-expected h c cs m (call lib c m) refl (call-Fits h c m a) (run-expected (c ∷ h) cs)

  -- From the start, every program of reads, writes and injections has the results of the reads and writes of the
  -- interface injected last, or of the Database, which is made once and only where none was injected when the
  -- interface is first asked for, and leaves the world as they do; it is undefined where they
  -- go to a null pointer.
  pub singleton_refines :
      (cs : List Call) (w : W) → outcome (run lib cs (at_start w)) ≡ expected [] cs w
  singleton_refines cs w =
      run-expected [] cs (at_start w) (record { init = refl; instance_ = refl })
