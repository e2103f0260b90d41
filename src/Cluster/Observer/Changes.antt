-- ===== src/Cluster/Observer/Changes.antt =====
-- The changes between two sets of nodes, and what applying them gives (internal/cluster/registry.go,
-- `pollState` and `publishState`).
use veracity.Base.{◌≡◌, refl, sym, ap, ◌∙◌, Option, none, some}
use veracity.Maps.{Keys, Map, find}
use veracity.Cluster.Registry.{Node}
use veracity.Cluster.Observer.{missing, changes, apply_event}
use veracity.Cluster.Observer.Membership.{
  Sound, unless, first_of, Keyed, all-Keyed, lookup-missing, missing-NoRepeat, get-set_all,
  get-remove_all,
}

-- The node of an id after a poll: one that has stayed keeps the addresses it was published with.
abbrev pub after_poll {ℓ} : {V : Type ℓ} → Option V → Option V → Option V
after_poll none loaded = loaded
after_poll (some n) none = none
after_poll (some n) (some m) = some n

module _ {U A N : Type 0} {Q : Keys U} (M : Map Q (Node U A) N) where
  pub changes-Sound :
      (known loaded : N)
      → Keyed M known
      → Keyed M loaded
      → Sound Q (λ id. M.try_get id known) (changes M known loaded)
  unfolding changes
  changes-Sound known loaded k h =
      let kp = all-Keyed M known k in
      let lp = all-Keyed M loaded h in
      record {
        registered_once = missing-NoRepeat M (M.all loaded) known lp (M.Distinct-all loaded);
        deregistered_once = missing-NoRepeat M (M.all known) loaded kp (M.Distinct-all known);
        registered_new = λ id n e.
            new id (M.try_get id known) (find Q.equal id (M.all loaded)) n
              (sym (lookup-missing M id (M.all loaded) known lp (M.Distinct-all loaded)) ∙ e);
        deregistered_there = λ id n e. there id (M.try_get id loaded) n (
            sym (
              lookup-missing M id (M.all known) loaded kp (M.Distinct-all known)
              ∙ ap (unless (M.try_get id loaded)) (M.find-all id known))
            ∙ e);
      }
    where
      new : (id : U) (a b : Option (Node U A)) (n : Node U A) → unless a b ≡ some n → a ≡ none
      new id none b n e = refl
      new id (some m) b n e = cc e

      there :
          {B : Option (Node U A)} (id : U) (a : Option (Node U A)) (n : Node U A)
          → unless a B ≡ some n
          → B ≡ some n
      there id none n e = e
      there id (some m) n e = cc e

  -- The event that `pollState` makes of the known nodes and the loaded ones: applied to the known nodes
  -- it leaves exactly the ids of the loaded ones. A node that was known keeps its addresses, and a new
  -- one has the loaded ones.
  pub changes-apply :
      (known loaded : N)
      → Keyed M known
      → Keyed M loaded
      → (id : U)
      → M.try_get id (apply_event M (changes M known loaded) known)
        ≡ after_poll (M.try_get id known) (M.try_get id loaded)
  unfolding apply_event changes
  changes-apply known loaded k h id =
      let kp = all-Keyed M known k in
      let lp = all-Keyed M loaded h in
      get-remove_all M id (missing M (M.all known) loaded) _
      ∙ (rw
          (
            lookup-missing M id (M.all known) loaded kp (M.Distinct-all known),
            get-set_all M id (missing M (M.all loaded) known) known
                (missing-NoRepeat M (M.all loaded) known lp (M.Distinct-all loaded)),
            lookup-missing M id (M.all loaded) known lp (M.Distinct-all loaded),
            M.find-all id known,
            M.find-all id loaded,
          )
          (split (M.try_get id known) (M.try_get id loaded)))
    where
      split :
          (a b : Option (Node U A)) → unless (unless b a) (first_of (unless a b) a) ≡ after_poll a b
      split none none = refl
      split none (some m) = refl
      split (some n) none = refl
      split (some n) (some m) = refl
