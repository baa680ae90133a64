-- ===== src/Journal/Completes.antt =====
-- A phase is recorded in calls that work: scripts/durable_recovery.py, `update_phase`.
use moon_mqtt_client.Base.{ℕ, String, true, ◌≡◌, refl, Option, some, Option-cases, inl, inr, arith}
use moon_mqtt_client.Paths.{FilePath}
use moon_mqtt_client.Phase.{Phase, in_phases, JournalRow, JournalDb}
use moon_mqtt_client.Exec.Rules.{Meets, Meets-bind, Meets-then, Meets-except_raise}
use moon_mqtt_client.Exec.Gives.{
  Gives, Gives-require, Gives-or_raise, Gives-bind, Gives-then, Meets-gives_then, Meets-of_gives,
}
use moon_mqtt_client.World.{Env, World, Content, fill, change, as_journal, query_journal}
use moon_mqtt_client.World.Frame.{Quiet}
use moon_mqtt_client.World.Calm.{calm, Gives-sql, Gives-gets, Meets-draw}
use moon_mqtt_client.Journal.{
  first_singleton, update_row, update_content, refresh_journal, commit_phase, update_phase,
}
use moon_mqtt_client.Resolution.Order.{row_of, row_of-update_content}

row_of-some :
    (c : Content) (row : JournalRow)
    → row_of c ≡ some row
    → (db : JournalDb) × (as_journal c ≡ some db) × (first_singleton db.rows ≡ some row)
row_of-some c row h = elim (Option-cases (as_journal c)) [
  | inl e ↦ absurd (ground arith)
  | inr (db, e) ↦ (db, e, ground arith)
]

-- What a phase update makes of a row.
pub record Moved (j : JournalRow) (phase : Phase) (t : Option FilePath) (h : Option String)
    (row : JournalRow) : Type 0 where
  pub time : String
  pub updated : row ≡ update_row phase t h time j

-- `F c` is a state in which the journal's file holds `c`; its row is `row`.
pub record At (F : Content → World → Type 0) (row : JournalRow) (w : World) : Type 0 where
  pub content : Content
  pub here : F content w
  pub is_row : row_of content ≡ some row

pub At-Quiet :
    (F : Content → World → Type 0) (row : JournalRow)
    → ((c : Content) (w w' : World) → Quiet w w' → F c w → F c w')
    → (w w' : World) → Quiet w w'
    → At F row w
    → At F row w'
At-Quiet F row keep w w' q h = record {
  content = h.content;
  here = keep h.content w w' q h.here;
  is_row = h.is_row;
}

module _ (env : Env) (connection : ℕ) (F : Content → World → Type 0)
    (keep : (c : Content) (w w' : World) → Quiet w w' → F c w → F c w')
    (held : (c : Content) (w : World) → F c w → w.content connection ≡ c)
    (refill : (c c' : Content) (w : World) → F c w → F c' (fill connection c' w)) where
  refreshed :
      (c : Content) (row : JournalRow)
      → row_of c ≡ some row
      → Gives (F c) (refresh_journal (calm env) connection) row
  unfolding refresh_journal query_journal
  refreshed c row e =
      let (db, read, first) = row_of-some c row e in
      Gives-bind _ _ db _
        (Gives-then _ _ _ _ (Gives-sql env (keep c)) (
          Gives-bind _ _ (some db) _ (Gives-gets env (keep c) _ _ (λ w h. rw (held c w h) read))
            (Gives-or_raise _ _ _ refl)))
        (Gives-or_raise _ _ _ first)

  module _ (c : Content) (j : JournalRow) (phase : Phase) (t : Option FilePath) (h : Option String)
      (e : row_of c ≡ some j) where
    -- The row is updated.
    record Done (w : World) : Type 0 where
      row : JournalRow
      at_row : At F row w
      moved : Moved j phase t h row

    committed :
        {E : World → Type 0}
        → Meets (F c) (commit_phase (calm env) connection phase t h) (λ _. Done) E
    unfolding commit_phase change
    committed = Meets-gives_then _ _ tt (Gives-sql env (keep c)) (
        Meets-bind (λ _. F c) _ _ (Meets-draw env (keep c))
          λ time. Meets-gives_then _ _ tt (Gives-sql env (keep c)) (
            Meets-bind (λ _. F c) _ _ (Meets-draw env (keep c))
              λ page. record {
                at = λ w k. record {
                  row = update_row phase t h (env.stamp time) j;
                  at_row = record {
                    content = update_content phase t h (env.stamp time) page (w.content connection);
                    here = refill c _ w k;
                    is_row =
                        row_of-update_content phase t h (env.stamp time) page (w.content connection)
                          j (rw (held c w k) e);
                  };
                  moved = record { time = env.stamp time; updated = refl };
                };
              }))

    after :
        (row : JournalRow)
        → Moved j phase t h row
        → (c' : Content) → row_of c' ≡ some row
        → {E : World → Type 0}
        → Meets
            (F c')
            (refresh_journal (calm env) connection)
            (λ row' w. At F row' w × Moved j phase t h row')
            E
    after row moved c' is_row =
        Meets-of_gives _ row (refreshed c' row is_row)
          (λ w k. (record { content = c'; here = k; is_row = is_row }, moved))

    update_phase-Done :
        {E : World → Type 0}
        → in_phases phase ≡ true
        → Meets
            (F c)
            (update_phase (calm env) connection phase t h)
            (λ row w. At F row w × Moved j phase t h row)
            E
    unfolding update_phase
    update_phase-Done known = Meets-gives_then _ _ tt (Gives-require _ _ known) (
        Meets-gives_then _ _ tt (Gives-sql env (keep c)) (
          Meets-then Done _ _
            (Meets-except_raise {D = λ w. ⊥} _ _ committed (record { at = λ w k. absurd k })
              (λ w k. absurd k))
            (record {
              at = λ w k. (after k.row k.moved k.at_row.content k.at_row.is_row).at w k.at_row.here;
            })))

  -- A phase that is in `PHASES` is recorded.
  pub update_phase-At :
      (j : JournalRow) (phase : Phase) (t : Option FilePath) (h : Option String)
      {E : World → Type 0}
      → in_phases phase ≡ true
      → Meets
          (At F j)
          (update_phase (calm env) connection phase t h)
          (λ row w. At F row w × Moved j phase t h row)
          E
  update_phase-At j phase t h known = record {
    at = λ w k. (update_phase-Done k.content j phase t h k.is_row known).at w k.here;
  }
