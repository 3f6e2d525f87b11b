-- ===== src/TypeErasure/Owners.antt =====
-- What ties the variables of a design to their values: each owns a model of its own, and each model is owned.
use cs_learning_notes.Base.{ℕ, ◌≡◌, ◌≤◌, ◌<◌, subst, Option, none, some, arith, update, ℕ_discrete}
use cs_learning_notes.TypeErasure.Models.{Classes, Model, Heap, with_new, with_model, without}
use cs_learning_notes.TypeErasure.Design.{Design, Laws}

module _ {A P : Type 0} {cl : Classes A P} {d : Design A P} (laws : Laws cl d) where
  -- A variable whose value is `o`.
  pub record Owns (vars : ℕ → Option d.Shape) (h : Heap A) (v : ℕ) (o : Model A) : Type 0 where
    pub shape : d.Shape
    pub alive : vars v ≡ some shape
    pub fits : laws.Fits shape o.class
    pub model : h.models (laws.at shape) ≡ some o

  -- `who` is the variable that an address belongs to.
  pub record Owners (vars : ℕ → Option d.Shape) (h : Heap A) (values : ℕ → Option (Model A))
      : Type 0 where
    pub who : ℕ → ℕ
    pub owns : (v : ℕ) (o : Model A) → values v ≡ some o → Owns vars h v o
    pub ends : (v : ℕ) → values v ≡ none → vars v ≡ none
    pub below : (v : ℕ) (s : d.Shape) → vars v ≡ some s → laws.at s < h.next
    pub mine : (v : ℕ) (s : d.Shape) → vars v ≡ some s → who (laws.at s) ≡ v
    pub fresh : (p : ℕ) → h.next ≤ p → h.models p ≡ none
    pub owned :
        (p : ℕ) (o : Model A)
        → h.models p ≡ some o
        → (s : d.Shape) × (vars (who p) ≡ some s) × (laws.at s ≡ p)

  -- The class of an object decides what fits it.
  as-Fits : (s : d.Shape) (o k : Model A) → o ≡ k → laws.Fits s o.class → laws.Fits s k.class
  as-Fits s o k e f = subst (λ b. laws.Fits s b.class) e f

  module _ (vars : ℕ → Option d.Shape) (h : Heap A) (values : ℕ → Option (Model A))
      (g : Owners vars h values) where
    -- A variable is made, with a new model.
    pub Owners-declare :
        (v : ℕ) (s : d.Shape) (o : Model A)
        → values v ≡ none
        → laws.at s ≡ h.next
        → laws.Fits s o.class
        → Owners (update vars v (some s)) (with_new o h) (update values v (some o))
    Owners-declare v s o e at fits = record {
      who = update g.who h.next v;
      owns = λ w k f. elim (ℕ_discrete v w) [
        | yes same ↦ record {
          shape = s;
          alive = ground arith;
          fits = as-Fits s o k (ground arith) fits;
          model = ground arith;
        }
        | no other ↦
            let l = g.owns w k (ground arith) in
            record {
              shape = l.shape;
              alive = ground (arith, l.alive);
              fits = l.fits;
              model = ground (arith, l.alive, l.model, g.below w l.shape);
            }
      ];
      ends = λ w f. ground (arith, g.ends w);
      below = λ w t f. ground (arith, g.below w t);
      mine = λ w t f. ground (arith, g.below w t, g.mine w t);
      fresh = λ p le. ground (arith, g.fresh p);
      owned = λ p k f. elim (ℕ_discrete h.next p) [
        | yes same ↦ (s, ground arith, ground arith)
        | no other ↦ let (t, u, z) = g.owned p k (ground arith) in (t, ground (arith, g.ends v), z)
      ];
    }

    -- The model of a variable changes.
    pub Owners-write :
        (v : ℕ) (s : d.Shape) (o o' : Model A)
        → values v ≡ some o
        → vars v ≡ some s
        → o.class ≡ o'.class
        → Owners vars (with_model (laws.at s) o' h) (update values v (some o'))
    Owners-write v s o o' e f c = record {
      who = g.who;
      owns = λ w k u. elim (ℕ_discrete v w) [
        | yes same ↦
            let l = g.owns v o e in
            record {
              shape = s;
              alive = ground arith;
              fits = as-Fits s o' k (ground arith) (
                  subst (λ b. laws.Fits s b) c
                    (subst (λ b. laws.Fits b o.class) (ground (arith, l.alive)) l.fits));
              model = ground arith;
            }
        | no other ↦
            let l = g.owns w k (ground arith) in
            record {
              shape = l.shape;
              alive = l.alive;
              fits = l.fits;
              model = ground (arith, l.alive, l.model, g.mine w l.shape, g.mine v s);
            }
      ];
      ends = λ w u. ground (arith, g.ends w);
      below = g.below;
      mine = g.mine;
      fresh = λ p le. ground (arith, g.fresh p, g.below v s);
      owned = λ p k u. elim (ℕ_discrete (laws.at s) p) [
        | yes same ↦ (s, ground (arith, g.mine v s), same)
        | no other ↦ g.owned p k (ground arith)
      ];
    }

    -- A variable is destroyed.
    pub Owners-destroy :
        (v : ℕ) (s : d.Shape)
        → vars v ≡ some s
        → Owners (update vars v none) (without (laws.at s) h) (update values v none)
    Owners-destroy v s f = record {
      who = g.who;
      owns = λ w k u. elim (ℕ_discrete v w) [
        | yes same ↦ absurd (ground arith)
        | no other ↦
            let l = g.owns w k (ground arith) in
            record {
              shape = l.shape;
              alive = ground (arith, l.alive);
              fits = l.fits;
              model = ground (arith, l.alive, l.model, g.mine w l.shape, g.mine v s);
            }
      ];
      ends = λ w u. ground (arith, g.ends w);
      below = λ w t u. ground (arith, g.below w t);
      mine = λ w t u. ground (arith, g.mine w t);
      fresh = λ p le. ground (arith, g.fresh p);
      owned = λ p k u. let (t, x, z) = g.owned p k (ground arith) in (t, ground arith, z);
    }

    -- A variable takes a new model for its own.
    pub Owners-assign :
        (v : ℕ) (s s' : d.Shape) (o : Model A)
        → vars v ≡ some s
        → laws.at s' ≡ h.next
        → laws.Fits s' o.class
        → Owners
            (update vars v (some s'))
            (without (laws.at s) (with_new o h))
            (update values v (some o))
    Owners-assign v s s' o f at fits = record {
      who = update g.who h.next v;
      owns = λ w k u. elim (ℕ_discrete v w) [
        | yes same ↦ record {
          shape = s';
          alive = ground arith;
          fits = as-Fits s' o k (ground arith) fits;
          model = ground (arith, g.below v s);
        }
        | no other ↦
            let l = g.owns w k (ground arith) in
            record {
              shape = l.shape;
              alive = ground (arith, l.alive);
              fits = l.fits;
              model =
                  ground (arith, l.alive, l.model, g.below w l.shape, g.mine w l.shape, g.mine v s);
            }
      ];
      ends = λ w u. ground (arith, g.ends w);
      below = λ w t u. ground (arith, g.below w t);
      mine = λ w t u. ground (arith, g.below w t, g.mine w t);
      fresh = λ p le. ground (arith, g.fresh p);
      owned = λ p k u. elim (ℕ_discrete h.next p) [
        | yes same ↦ (s', ground arith, ground arith)
        | no other ↦ let (t, x, z) = g.owned p k (ground arith) in (t, ground arith, z)
      ];
    }
