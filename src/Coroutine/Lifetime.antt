-- ===== src/Coroutine/Lifetime.antt =====
-- cpp/c++20/coroutines/manual_lifetime.hpp: storage in which an object is made and destroyed by hand.
use cs_learning_notes.Base.{Option, none, some}

module _ {ℓ} (A : Type ℓ) where
  -- `raw` is storage in which no object lives.
  pub data Storage : Type ℓ where
    raw : Storage
    live : A → Storage

module _ {ℓ} {A : Type ℓ} where
  -- `none` is undefined behaviour, or an object that is overwritten and never destroyed.
  abbrev pub construct_from : A → Storage A → Option (Storage A)
  construct_from a raw = some (live a)
  construct_from a (live b) = none

  abbrev pub destroy : Storage A → Option (Storage A)
  destroy raw = none
  destroy (live a) = some raw

  abbrev pub get : Storage A → Option A
  get raw = none
  get (live a) = some a
