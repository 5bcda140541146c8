-- ===== src/Transaction/Insert/Frame.antt =====
-- What the statement on a row leaves alone: the error field, the locks behind the first one, and the
-- schemas.
use ramsql.Base.{ℕ, ◌≡◌, refl, ◌∙◌, Bool, true, false, [], ◌∷◌, arith}
use ramsql.Base.Dict.{Dict}
use ramsql.Base.Framed.{Framed, Framed-bind}
use ramsql.Base.Exec.{Exec, lift}
use ramsql.Value.{Value, Runtime}
use ramsql.Tuple.{Tuple}
use ramsql.Relation.{check_primary_key}
use ramsql.Transaction.{Session, relation_at}
use ramsql.Transaction.Insert.{
  build_row, store_row, insert_row, store_in, note_row, push_row, none_left, require_key,
}

-- The parts of a session that a row statement does not touch.
pub record SameFrame (s t : Session) : Type 0 where
  pub error : t.error ≡ s.error
  pub locks : t.locks ≡ s.locks
  pub schemas : t.heap.schemas ≡ s.heap.schemas
  pub engine : t.heap.engine ≡ s.heap.engine

SameFrame-refl : (s : Session) → SameFrame s s
SameFrame-refl s = record { error = refl; locks = refl; schemas = refl; engine = refl }

pub SameFrame-trans : (s t u : Session) → SameFrame s t → SameFrame t u → SameFrame s u
SameFrame-trans s t u h k = record {
  error = k.error ∙ h.error;
  locks = k.locks ∙ h.locks;
  schemas = k.schemas ∙ h.schemas;
  engine = k.engine ∙ h.engine;
}

abbrev pub Frames : {A : Type 0} → Exec Session A → Type 0
Frames = Framed SameFrame

relation_at-SameFrame : (r : ℕ) → Frames (relation_at r)
relation_at-SameFrame r s = ground arith

module _ (rt : Runtime) (r : ℕ) where
  build_row-SameFrame : (given : Dict Value) (s : Session) → SameFrame s (build_row rt r given s).1
  unfolding build_row
  build_row-SameFrame given s = ground arith

  store_row-SameFrame : (t : Tuple) (s : Session) → SameFrame s (store_row rt r t s).1
  unfolding store_row store_in note_row push_row
  store_row-SameFrame t s = ground arith

  none_left-SameFrame : (left : Dict Value) (s : Session) → SameFrame s (none_left left s).1
  none_left-SameFrame [] s = SameFrame-refl s
  none_left-SameFrame ((k, v) ∷ rest) s = SameFrame-refl s

  require_key-SameFrame : (free : Bool) (s : Session) → SameFrame s (require_key free s).1
  require_key-SameFrame true s = SameFrame-refl s
  require_key-SameFrame false s = SameFrame-refl s

  pub insert_row-SameFrame :
      (given : Dict Value) (s : Session) → SameFrame s (insert_row rt r given s).1
  unfolding insert_row
  insert_row-SameFrame given =
      Framed-bind SameFrame-trans (build_row rt r given) _ (build_row-SameFrame given) λ (vs, left).
        Framed-bind SameFrame-trans (none_left left) _ (none_left-SameFrame left) λ done.
          Framed-bind SameFrame-trans (relation_at r) _ (relation_at-SameFrame r) λ o.
            Framed-bind SameFrame-trans (lift (check_primary_key rt o (record { values = vs }))) _
              SameFrame-refl
              λ free.
                Framed-bind SameFrame-trans (require_key free) _ (require_key-SameFrame free)
                  λ done'. store_row-SameFrame (record { values = vs })
