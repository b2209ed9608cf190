-- ===== src/Tests/Persistence.antt =====
-- The theorem on internal/persistence/redis.go at concrete inputs.
use distributed_counter.Base.{
  Text, ◌≡◌, refl, sym, ◌∙◌, ap, true, false, Option, some, none, [], ◌∷◌, GoMap, set, lookup,
  lookup-set, text_eq_refl, codes, text_eq,
}
use distributed_counter.Persistence.Wal.{CounterState}
use distributed_counter.Persistence.Redis.{Client, Codec, save, loaded, failed, load}
use distributed_counter.Persistence.Redis.Loads.{
  KeepsKeys, SameState, ReadsBack, OtherNodes, save_all, save-load,
}

-- A server that acknowledges every call.
abbrev server : Client (GoMap Text)
server = record { set_key = λ k v r. (set r k v, true); get_key = λ k r. lookup r k }

server-KeepsKeys : KeepsKeys (GoMap Text) server
server-KeepsKeys = record {
  acknowledged = λ k v r h. lookup-set r k k v ∙ rw (text_eq_refl k) refl;
  other_keys = λ k j v r h. lookup-set r k j v ∙ rw h refl;
}

-- An encoding of the states that hold one count.
abbrev one_count : Codec
one_count = record { marshal = write_count; unmarshal = read_count }
  where
    write_count : CounterState → Option Text
    write_count state = elim state.positive [ (k, v) ∷ [] ↦ some (v ∷ k) | _ ↦ none ]

    read_count : Text → Option CounterState
    read_count [] = none
    read_count (v ∷ k) =
        some (record { positive = (k, v) ∷ []; negative = []; clock = []; tags = [] })

abbrev counted : CounterState
counted = record { positive = (codes "n", 4) ∷ []; negative = []; clock = []; tags = [] }

counted-ReadsBack : ReadsBack one_count counted
unfolding ReadsBack
counted-ReadsBack bytes h =
    let text : 4 ∷ codes "n" ≡ bytes = cc in
    (
      counted,
      ap one_count.unmarshal (sym text),
      record { positive = λ k. refl; negative = λ k. refl; clock = λ k. refl; tags = λ k. refl },
    )

save-load_example :
    let first = save server one_count (codes "n") counted [] in
    let r' = save_all (GoMap Text) server one_count ((codes "m", counted) ∷ []) first.0 in
    ((state' : CounterState) × (load server one_count true (codes "n") r' ≡ loaded state')
      × SameState counted state')
    × (load server one_count false (codes "n") r' ≡ failed)
unfolding OtherNodes save text_eq
save-load_example =
    save-load (GoMap Text) server one_count server-KeepsKeys (codes "n") counted
      ((codes "m", counted) ∷ []) [] counted-ReadsBack (refl, tt) refl
