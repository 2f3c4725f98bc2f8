-- ===== src/Device/Flush/Uploads.antt =====
-- The loop of a flush: while it runs every object keeps its content, and behind it none needs its dirty row.
use telegram_block_device.Prelude.{
  ℕ, suc, ◌≡◌, ◌≢◌, refl, sym, ◌∙◌, ap, inl, inr, none, some, List, [], ◌∷◌, Result, ok,
  Result-cases, Bool-cases, some_eq, ℕ-cases, arith, ◌==◌, ==_iff, subst,
}
use telegram_block_device.Prelude.Table.{row_at, row_at_below, IsAscending}
use telegram_block_device.Format.Digest.{Digest}
use telegram_block_device.Format.Manifest.{ManifestJson}
use telegram_block_device.Errors.{Error}
use telegram_block_device.Cache.{DirtyObject, dirty_object}
use telegram_block_device.Backend.{RemoteBackend, Channel}
use telegram_block_device.Device.{BlockDevice, upload, upload_all}
use telegram_block_device.Device.Holds.{InDirty, Holds, in_dirty, in_zero, in_channel}
use telegram_block_device.Device.Flush.Moves.{InDirty-Moves, Holds-Moves, settled, settled-Moves}
use telegram_block_device.Device.Flush.Upload.{Uploads, upload_lem}

-- In rows with rising keys, those behind the first are found as they are with it.
pub row_at-tail :
    (low id : ℕ) (row : DirtyObject) (rows : List DirtyObject) (r : DirtyObject)
    → IsAscending (λ r. r.object_id) low (row ∷ rows)
    → row_at (λ r. r.object_id) id rows ≡ some r
    → row_at (λ r. r.object_id) id (row ∷ rows) ≡ some r
unfolding row_at
row_at-tail low id row rows r a h = elim (Bool-cases (row.object_id == id)) [
  | inr other ↦ rw other h
  | inl same ↦ cc (
    h,
    row_at_below (λ r. r.object_id) (suc row.object_id) id rows a.1
        (omega (arith, (==_iff row.object_id id).0 same)),
  )
]

row_at_ne :
    (id : ℕ) (row : DirtyObject) (rows : List DirtyObject)
    → id ≢ row.object_id
    → row_at (λ r. r.object_id) id rows ≡ none
    → row_at (λ r. r.object_id) id (row ∷ rows) ≡ none
unfolding row_at
row_at_ne id row rows ne h = ground arith

row_at_self :
    (row : DirtyObject) (rows : List DirtyObject)
    → row_at (λ r. r.object_id) row.object_id (row ∷ rows) ≡ some row
unfolding row_at
row_at_self row rows = ground arith

module _ (D : Digest) (J : ManifestJson) (B : RemoteBackend) (C : Channel B) where
  -- A device `e` inside the loop of a flush of `d`, with `rows` left to upload.
  pub record Loops (d : BlockDevice B) (rows : List DirtyObject) (e : BlockDevice B) : Type 0 where
    pub same_map : e.map ≡ d.map
    pub same_store : e.store ≡ d.store
    pub same_committer : e.committer ≡ d.committer
    pub keeps : (id : ℕ) (p : List ℕ) → Holds D B C d id p → Holds D B C e id p
    pub settles :
        (id : ℕ) (p : List ℕ)
        → Holds D B C d id p
        → row_at (λ r. r.object_id) id rows ≡ none
        → Holds D B C (settled D B C e) id p

  -- An object with a dirty row has its content there.
  pub dirty_row :
      (d : BlockDevice B) (id : ℕ) (p : List ℕ) (row : DirtyObject)
      → dirty_object d.store id ≡ some row
      → Holds D B C d id p
      → (h : InDirty D B C d id p) × (h.row ≡ row)
  dirty_row d id p row found (in_dirty h) = (h, some_eq (sym h.found ∙ found))
  dirty_row d id p row found (in_zero h) = cc (found, h.undirtied)
  dirty_row d id p row found (in_channel h) = cc (found, h.undirtied)

  module _ (d e : BlockDevice B) (row : DirtyObject) (rows : List DirtyObject)
      (l : Loops d (row ∷ rows) e) (dirty : dirty_object d.store row.object_id ≡ some row) where
    abbrev u : Uploads D J B C row e (upload D J B row e)
    u = upload_lem D J B C row e

    found : (id : ℕ) → id ≡ row.object_id → dirty_object e.store id ≡ some row
    found id same =
        ap (λ s. dirty_object s id) l.same_store ∙ ap (dirty_object d.store) same ∙ dirty

    keeps_on : (id : ℕ) (p : List ℕ) → Holds D B C d id p → Holds D B C (upload D J B row e).1 id p
    keeps_on id p h = elim (ℕ-cases id row.object_id) [
      | inr ne ↦ Holds-Moves D B C u.moves id p ne (l.keeps id p h)
      | inl same ↦ in_dirty (
          InDirty-Moves D B C u.moves id p
            (dirty_row e id p row (found id same) (l.keeps id p h)).0)
    ]

    settles_row :
        (p : List ℕ)
        → (upload D J B row e).0 ≡ ok tt
        → Holds D B C d row.object_id p
        → Holds D B C (settled D B C (upload D J B row e).1) row.object_id p
    settles_row p done h =
        let (g, same) = dirty_row e row.object_id p row (found _ refl) (l.keeps _ p h) in
        u.stored done p g same

    settles_on :
        (id : ℕ) (p : List ℕ)
        → (upload D J B row e).0 ≡ ok tt
        → Holds D B C d id p
        → row_at (λ r. r.object_id) id rows ≡ none
        → Holds D B C (settled D B C (upload D J B row e).1) id p
    settles_on id p done h clear = elim (ℕ-cases id row.object_id) [
      | inr ne ↦
          Holds-Moves D B C (settled-Moves D B C u.moves) id p ne
            (l.settles id p h (row_at_ne id row rows ne clear))
      | inl same ↦
          subst (λ i. Holds D B C (settled D B C (upload D J B row e).1) i p) (sym same)
            (settles_row p done (subst (λ i. Holds D B C d i p) same h))
    ]

    step : (upload D J B row e).0 ≡ ok tt → Loops d rows (upload D J B row e).1
    step done = record {
      same_map = u.moves.same_map ∙ l.same_map;
      same_store = u.moves.same_store ∙ l.same_store;
      same_committer = u.moves.same_committer ∙ l.same_committer;
      keeps = keeps_on;
      settles = λ id p h clear. settles_on id p done h clear;
    }

  -- What the loop comes to, whether it ends or raises.
  pub record Looped (d : BlockDevice B) (r : Result Error (Unit {0}) × BlockDevice B) : Type 0 where
    pub same_map : r.1.map ≡ d.map
    pub same_store : r.1.store ≡ d.store
    pub keeps : (id : ℕ) (p : List ℕ) → Holds D B C d id p → Holds D B C r.1 id p
    pub done : r.0 ≡ ok tt → Loops d [] r.1

  abbrev pub Pending : BlockDevice B → List DirtyObject → Type 0
  Pending d rows =
      (id : ℕ) (r : DirtyObject)
      → row_at (λ r. r.object_id) id rows ≡ some r
      → dirty_object d.store id ≡ some r

  pub upload_all_lem :
      (d : BlockDevice B) (low : ℕ) (rows : List DirtyObject) (e : BlockDevice B)
      → IsAscending (λ r. r.object_id) low rows
      → Pending d rows
      → Loops d rows e
      → Looped d (upload_all D J B rows e)
  unfolding upload_all
  upload_all_lem d low [] e a pending l = record {
    same_map = l.same_map;
    same_store = l.same_store;
    keeps = l.keeps;
    done = λ _. l;
  }
  upload_all_lem d low (row ∷ rows) e a pending l = elim (Result-cases (upload D J B row e).0) [
    | inl (_, done) ↦ rw done (
        upload_all_lem d (suc row.object_id) rows (upload D J B row e).1 a.1
          (λ id r h. pending id r (row_at-tail low id row rows r a h))
          (step d e row rows l dirty done))
    | inr (x, failed) ↦ rw failed (record {
      same_map = (upload_lem D J B C row e).moves.same_map ∙ l.same_map;
      same_store = (upload_lem D J B C row e).moves.same_store ∙ l.same_store;
      keeps = keeps_on d e row rows l dirty;
      done = λ h. cc;
    })
  ]
    where
      dirty : dirty_object d.store row.object_id ≡ some row
      dirty = pending row.object_id row (row_at_self row rows)
