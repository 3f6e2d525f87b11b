-- ===== src/Statics/Singleton.antt =====
-- cpp/c++_software_design/singleton/singleton.cpp. `Database` and the other classes that implement the interface
-- are not there, so what they do is a parameter; W is the state that they act on.
use cs_learning_notes.Base.{
  ℕ, Bool, true, false, Option, none, some, List, [], ◌∷◌, ◌++◌, ◌==◌, if◌then◌else◌,
}
use cs_learning_notes.Base.Cmd.{Cmd, pure, ◌>>=◌}

abbrev pub null : ℕ
null = 0

-- The objects behind pointers to PersistenceInterface, with `db`, the address of the static Database, and what
-- its constructor does.
pub record Persistence (W : Type 0) : Type 0 where
  pub do_read : (p : ℕ) → W → Bool
  pub do_write : (p : ℕ) → W → Bool × W
  pub db : ℕ
  pub construct_database : W → W

-- The variable `instance`, and whether `init` of `get_persistence_interface` is initialised.
pub record Memory (W : Type 0) : Type 0 where
  pub instance_ : ℕ
  pub init : Bool
  pub world : W

abbrev pub at_start : {W : Type 0} → W → Memory W
at_start w = record { instance_ = null; init = false; world = w }

-- `set_persistence_interface`
abbrev pub set_persistence_interface : {W : Type 0} → ℕ → Memory W → Memory W
set_persistence_interface persistence m = record m { instance_ = persistence }

-- What the clients do: they get the interface and call it, or inject another one.
pub data Call : Type 0 where
  read_it : Call
  write_it : Call
  set_it : (persistence : ℕ) → Call

module _ {W : Type 0} (lib : Persistence W) where
  -- The lambda that initialises `init`
  unfoldable pub init_instance : Memory W → Memory W
  init_instance m =
      if m.instance_ == null
      then record m { instance_ = lib.db; world = lib.construct_database m.world }
      else m

  unfoldable pub get_persistence_interface : Memory W → ℕ × Memory W
  get_persistence_interface m =
      let m' = if m.init then m else record (init_instance m) { init = true } in (m'.instance_, m')

  -- `PersistenceInterface::read` and `write`; to call them of the null pointer is undefined.
  unfoldable pub read : ℕ → Memory W → Option (Bool × Memory W)
  read p m = if p == null then none else some (lib.do_read p m.world, m)

  unfoldable pub write : ℕ → Memory W → Option (Bool × Memory W)
  write p m =
      let (b, w) = lib.do_write p m.world in
      if p == null then none else some (b, record m { world = w })

  abbrev pub call : Call → Cmd (Memory W) (List Bool)
  call read_it m = let (p, m') = get_persistence_interface m in (read p >>= λ b. pure (b ∷ [])) m'
  call write_it m = let (p, m') = get_persistence_interface m in (write p >>= λ b. pure (b ∷ [])) m'
  call (set_it p) m = some ([], set_persistence_interface p m)

  -- A program; its result are those of `read` and `write`.
  unfoldable pub run : List Call → Cmd (Memory W) (List Bool)
  run [] = pure []
  run (c ∷ cs) = do bs ← call c; rest ← run cs; pure (bs ++ rest)
