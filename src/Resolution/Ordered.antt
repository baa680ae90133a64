-- ===== src/Resolution/Ordered.antt =====
-- The steps of `advance_resolution` keep the order of Resolution/Order.antt.
use moon_mqtt_client.Base.{ℕ, String, false, ◌≡◌, refl, ◌∙◌, sym, Option, some, subst, ==_refl}
use mathlib.Core.Option.{some-injective}
use moon_mqtt_client.Paths.{FilePath}
use moon_mqtt_client.Phase.{Phase, in_phases, JournalRow, JournalDb}
use moon_mqtt_client.Request.{Request}
use moon_mqtt_client.Exec.Rules.{
  Step, Meets, Meets-bind, Meets-then, Meets-step, Meets-weaken, Meets-errors, Meets-or_raise,
  Meets-require, Meets-except_raise,
}
use moon_mqtt_client.World.{Env, World, Act, sql, draw, change, fill, as_journal, type_error}
use moon_mqtt_client.World.Frame.{Quiet, Quiet-sql, Quiet-draw, query_journal-reads}
use moon_mqtt_client.World.Changes.{Frame-Quiet}
use moon_mqtt_client.Journal.{
  commit_phase, update_phase, refresh_journal, first_singleton, update_row, update_content,
}
use moon_mqtt_client.Resolution.Order.{
  row_of-read, IsOrdered, Holds, Ends, Holds-Ends, Holds-Frame, row_of-update_content,
}

module _ (env : Env) (request : Request) (start connection : ℕ) where
  abbrev pub H : JournalRow → World → Type 0
  H = Holds request start connection

  abbrev pub E : World → Type 0
  E = Ends request start connection

  pub H-E : (row : JournalRow) (w : World) → H row w → E w
  H-E = Holds-Ends request start connection

  pub H-Quiet : (row : JournalRow) (w w' : World) → Quiet w w' → H row w → H row w'
  H-Quiet row w w' q h =
      Holds-Frame request start connection (λ _. false) (λ _. false) row w w' refl
        (Frame-Quiet _ _ w w' q) h

  -- The row may take a phase.
  pub record Ready (row : JournalRow) (phase : Phase) (w : World) : Type 0 where
    pub holds : H row w
    pub promised : IsOrdered request start phase w

  Ready-Quiet :
      (row : JournalRow) (phase : Phase) (w w' : World)
      → Quiet w w'
      → Ready row phase w
      → Ready row phase w'
  Ready-Quiet row phase w w' q r = record {
    holds = H-Quiet row w w' q r.holds;
    promised = record {
      forward = r.promised.forward;
      old_discarded = λ k. rw q.exchanges_eq (r.promised.old_discarded k);
      new_discarded = λ k. rw q.exchanges_eq (r.promised.new_discarded k);
    };
  }

  -- The journal has a row with the phase.
  abbrev Updated : Phase → World → Type 0
  Updated phase w = (row : JournalRow) × H row w × (row.phase ≡ phase)

  Ready-fill :
      (row : JournalRow) (phase : Phase) (t : Option FilePath) (h : Option String) (time : String)
      (page : ℕ) (w : World)
      → Ready row phase w
      → Updated phase
          (fill connection (update_content phase t h time page (w.content connection)) w)
  Ready-fill row phase t h time page w r = (
    update_row phase t h time row,
    record {
      at_journal =
          rw (==_refl connection) (
            row_of-update_content phase t h time page (w.content connection) row
              r.holds.at_journal);
      ordered = record {
        forward = r.promised.forward;
        old_discarded = r.promised.old_discarded;
        new_discarded = r.promised.new_discarded;
      };
      in_use = r.holds.in_use;
    },
    refl,
  )

  Updated-Quiet : (phase : Phase) (w w' : World) → Quiet w w' → Updated phase w → Updated phase w'
  Updated-Quiet phase w w' q (row, h, e) = (row, H-Quiet row w w' q h, e)

  -- The row that the SELECT reads is the row that was written.
  Updated-row :
      (phase : Phase) (db : JournalDb) (row : JournalRow) (w : World)
      → Updated phase w
      → as_journal (w.content connection) ≡ some db
      → first_singleton db.rows ≡ some row
      → H row w × (row.phase ≡ phase)
  Updated-row phase db row w (row', h, e) read first =
      let same : row' ≡ row =
        some-injective row' row
          (sym h.at_journal ∙ row_of-read (w.content connection) db row read first) in
      (subst (λ r. H r w) same h, subst (λ r. r.phase ≡ phase) same e)

  refresh_journal-Holds :
      (phase : Phase)
      → Meets
          (Updated phase)
          (refresh_journal env connection)
          (λ row w. H row w × (row.phase ≡ phase))
          E
  unfolding refresh_journal
  refresh_journal-Holds phase =
      Meets-bind (λ db w. Updated phase w × (as_journal (w.content connection) ≡ some db)) _ _
        (Meets-errors (λ w u. H-E u.0 w u.1)
          (query_journal-reads env (Updated-Quiet phase) connection))
        λ db.
          Meets-or_raise (first_singleton db.rows) type_error
            (record { at = λ w h. H-E h.0.0 w h.0.1 })
            λ row w e h. Updated-row phase db row w h.0 h.1 e

  quiet :
      {A : Type 0} (row : JournalRow) (phase : Phase) (m : Act A)
      → Step Quiet m
      → Meets (Ready row phase) m (λ _. Ready row phase) E
  quiet row phase m km =
      Meets-errors (λ w r. H-E row w r.holds) (Meets-step (Ready-Quiet row phase) m km)

  still :
      {A : Type 0} (row : JournalRow) (phase : Phase) (m : Act A)
      → Step Quiet m
      → Meets (Ready row phase) m (λ _. Ready row phase) (Ready row phase)
  still row phase m km = Meets-step (Ready-Quiet row phase) m km

  -- The body of the transaction.
  written :
      (row : JournalRow) (phase : Phase) (t : Option FilePath) (h : Option String)
      → Meets
          (Ready row phase)
          (commit_phase env connection phase t h)
          (λ _. Updated phase)
          (Ready row phase)
  unfolding commit_phase change
  written row phase t h =
      Meets-then (Ready row phase) _ _ (still row phase (sql env) (Quiet-sql env)) (
        Meets-bind (λ _. Ready row phase) _ _ (still row phase draw Quiet-draw)
          λ time. Meets-then (Ready row phase) _ _ (still row phase (sql env) (Quiet-sql env)) (
            Meets-bind (λ _. Ready row phase) _ _ (still row phase draw Quiet-draw)
              λ page. record { at = λ w r. Ready-fill row phase t h (env.stamp time) page w r }))

  pub update_phase-Holds :
      (row : JournalRow) (phase : Phase) (t : Option FilePath) (h : Option String)
      → Meets
          (Ready row phase)
          (update_phase env connection phase t h)
          (λ row' w. H row' w × (row'.phase ≡ phase))
          E
  unfolding update_phase
  update_phase-Holds row phase t h =
      Meets-then (Ready row phase) _ _
        (Meets-require (in_phases phase) _ (λ w r. H-E row w r.holds) (λ w k r. r))
        (Meets-then (Ready row phase) _ _ (quiet row phase (sql env) (Quiet-sql env)) (
          Meets-then (Updated phase) _ _
            (Meets-except_raise _ _ (written row phase t h)
              (Meets-weaken (sql env) (λ w r. r) (λ a w r. H-E row w r.holds)
                (quiet row phase (sql env) (Quiet-sql env)))
              (λ w r. H-E row w r.holds))
            (refresh_journal-Holds phase)))
