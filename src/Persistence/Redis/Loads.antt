-- ===== src/Persistence/Redis/Loads.antt =====
-- What internal/persistence/redis.go loads after a save, on a server that several nodes share.
use distributed_counter.Base.{
  Text, ◌≡◌, refl, sym, ◌∙◌, ap, true, false, none, some, List, [], ◌∷◌, codes, inl, inr,
  Option-cases, lookup, text_eq, text_eq_iff, text_eq_ne,
}
use mathlib.Core.List.{append_cancel_left, append_cancel_right}
use distributed_counter.Persistence.Wal.{CounterState}
use distributed_counter.Persistence.Redis.{
  Client, Codec, state_key, save, loaded, failed, load, decoded,
}

-- What is relied on of Redis: an acknowledged SET is read back, and a SET, acknowledged or not, is of its
-- key alone. One that is not acknowledged may or may not have been applied.
pub record KeepsKeys (R : Type 0) (client : Client R) : Type 0 where
  pub acknowledged :
      (k v : Text) (r : R)
      → (client.set_key k v r).1 ≡ true
      → client.get_key k (client.set_key k v r).0 ≡ some v
  pub other_keys :
      (k j v : Text) (r : R)
      → text_eq k j ≡ false
      → client.get_key j (client.set_key k v r).0 ≡ client.get_key j r

-- States whose maps read alike.
pub record SameState (a b : CounterState) : Type 0 where
  pub positive : (k : Text) → lookup a.positive k ≡ lookup b.positive k
  pub negative : (k : Text) → lookup a.negative k ≡ lookup b.negative k
  pub clock : (k : Text) → lookup a.clock k ≡ lookup b.clock k
  pub tags : (k : Text) → lookup a.tags k ≡ lookup b.tags k

-- What is relied on of encoding/json: the text of the state is read as a state that reads alike.
unfoldable pub ReadsBack : Codec → CounterState → Type 0
ReadsBack codec state =
    (bytes : Text)
    → codec.marshal state ≡ some bytes
    → (state' : CounterState) × (codec.unmarshal bytes ≡ some state') × SameState state state'

-- Saves of nodes other than one.
unfoldable pub OtherNodes : Text → List (Text × CounterState) → Type 0
OtherNodes id [] = Unit
OtherNodes id ((node_id, _) ∷ saves) = (text_eq node_id id ≡ false) × OtherNodes id saves

state_key-ne : (i j : Text) → text_eq i j ≡ false → text_eq (state_key i) (state_key j) ≡ false
unfolding state_key
state_key-ne i j h = text_eq_ne _ _ (λ e. cc (
  h,
  (text_eq_iff i j).1
      (append_cancel_right i j (codes ":state") (append_cancel_left (codes "counter:") _ _ e)),
))

module _ (R : Type 0) (client : Client R) (codec : Codec) where
  unfoldable pub save_all : List (Text × CounterState) → R → R
  save_all [] r = r
  save_all ((node_id, state) ∷ saves) r = save_all saves (save client codec node_id state r).0

  save-other :
      (h : KeepsKeys R client) (node_id id : Text) (state : CounterState) (r : R)
      → text_eq node_id id ≡ false
      → client.get_key (state_key id) (save client codec node_id state r).0
        ≡ client.get_key (state_key id) r
  unfolding save
  save-other h node_id id state r ne = elim (Option-cases (codec.marshal state)) [
    | inl e ↦ rw (save, e) refl
    | inr (bytes, e) ↦ rw (save, e) (h.other_keys _ _ bytes r (state_key-ne node_id id ne))
  ]

  save_all-others :
      (h : KeepsKeys R client) (id : Text) (saves : List (Text × CounterState)) (r : R)
      → OtherNodes id saves
      → client.get_key (state_key id) (save_all saves r) ≡ client.get_key (state_key id) r
  unfolding OtherNodes save_all
  save_all-others h id [] r o = refl
  save_all-others h id ((node_id, state) ∷ saves) r o =
      save_all-others h id saves (save client codec node_id state r).0 o.1
      ∙ save-other h node_id id state r o.0

  save-encoded :
      (id bytes : Text) (state : CounterState) (r : R)
      → codec.marshal state ≡ some bytes
      → save client codec id state r ≡ client.set_key (state_key id) bytes r
  unfolding save
  save-encoded id bytes state r e = rw (save, e) refl

  -- A save that succeeded has left the text of its state under the node's key.
  saved_text :
      (h : KeepsKeys R client) (id : Text) (state : CounterState) (r : R)
      → (save client codec id state r).1 ≡ true
      → (bytes : Text) × (codec.marshal state ≡ some bytes)
        × (client.get_key (state_key id) (save client codec id state r).0 ≡ some bytes)
  unfolding save
  saved_text h id state r ok = elim (Option-cases (codec.marshal state)) [
    | inl e ↦ absurd (cc (no_text e, ok))
    | inr (bytes, e) ↦
        let set = save-encoded id bytes state r e in
        (
          bytes,
          e,
          ap (λ p. client.get_key (state_key id) p.0) set
              ∙ h.acknowledged (state_key id) bytes r (sym (ap (λ p. p.1) set) ∙ ok),
        )
  ]
    where
      no_text : codec.marshal state ≡ none → (save client codec id state r).1 ≡ false
      no_text e = rw (save, e) refl

  loads :
      (id bytes : Text) (state : CounterState) (r : R)
      → client.get_key (state_key id) r ≡ some bytes
      → codec.unmarshal bytes ≡ some state
      → load client codec true id r ≡ loaded state
  unfolding load decoded
  loads id bytes state r g u = rw (load, g) (ap decoded u)

  -- On a Redis that keeps its keys: a state whose save succeeded, and that the encoding reads back, is what
  -- Load returns, up to the order of its maps, after any saves of other nodes, acknowledged or not. Load
  -- fails where Redis is not reached.
  pub save-load :
      (h : KeepsKeys R client) (id : Text) (state : CounterState)
      (saves : List (Text × CounterState)) (r : R)
      → ReadsBack codec state
      → OtherNodes id saves
      → (save client codec id state r).1 ≡ true
      → let r' = save_all saves (save client codec id state r).0 in
        ((state' : CounterState) × (load client codec true id r' ≡ loaded state')
          × SameState state state')
        × (load client codec false id r' ≡ failed)
  unfolding ReadsBack load
  save-load h id state saves r reads o ok =
      let (bytes, m, g) = saved_text h id state r ok in
      let (state', u, same) = reads bytes m in
      let r1 = (save client codec id state r).0 in
      ((state', loads id bytes state' _ (save_all-others h id saves r1 o ∙ g) u, same), refl)
