-- ===== src/Device/ReadAhead.antt =====
-- The rounds of the read-ahead, and the whole of it.
use telegram_block_device.Prelude.{
  ℕ, zero, suc, ◌+◌, ◌-◌, ◌^◌, ◌<◌, ◌≡◌, refl, ◌∙◌, ap, subst, inl, inr, false, Option, none, some,
  List, [], ◌∷◌, map, ok, min, arith, Result, Bool-cases, Result-cases, Option-cases, some_eq,
  ok_injective, ltb, ◌==◌, ltb→lt, ◌/◌, ◌%◌,
}
use telegram_block_device.Prelude.Bytes.{Text, text_eq}
use telegram_block_device.Format.Digest.{Digest, sha256_hex}
use telegram_block_device.Format.Envelope.{decode}
use telegram_block_device.Format.Manifest.{ManifestJson, ManifestObject, RemoteObjectRef}
use telegram_block_device.Block.{BlockMap, locate}
use telegram_block_device.Cache.{DirtyObject, read_cache, write_cache, dirty_object, dirty_objects}
use telegram_block_device.Errors.{Error}
use telegram_block_device.Backend.{RemoteBackend, Channel, AnswersFrom}
use telegram_block_device.Device.{
  BlockDevice, DeviceMetrics, Wanted, find_object, is_dirty, wanted_uncached, wanted_refs,
  wanted_entry, wanted_loop, push, keep_fetched, fetch_wanted, prefetch_objects, read_ahead,
}
use telegram_block_device.Device.Holds.{Fills, Fills-refl, Fills-trans}
use telegram_block_device.Device.Represents.{IsSized, Place, place}
use telegram_block_device.Device.Prefetch.{
  SameFiles, read_cache-SameFiles, Quiet-Fills, IsWanted, AllWanted, AllWanted-Fills,
  AllWanted-push, keep_one, is_dirty-none,
}

module _ (D : Digest) (J : ManifestJson) (B : RemoteBackend) (C : Channel B) where
  -- One round finds an entry that is wanted, or none, and changes no object.
  abbrev Finds : BlockDevice B → Result Error (Option Wanted) × BlockDevice B → Type 0
  Finds d r = Fills D B C d r.1 × ((w : Wanted) → r.0 ≡ ok (some w) → IsWanted D J B C r.1 w)

  abbrev Candidate : BlockDevice B → ℕ → ManifestObject → Type 0
  Candidate d id entry =
      (id < 2 ^ 64)
      × (dirty_object d.store id ≡ none)
      × (find_object id d.manifest.objects ≡ some entry)

  after :
      {d e : BlockDevice B} {r : Result Error (Option Wanted) × BlockDevice B}
      → Fills D B C d e
      → Finds e r
      → Finds d r
  after a (fills, wanted) = (Fills-trans D B C a fills, wanted)

  quiet_count :
      (d e : BlockDevice B)
      → e.map ≡ d.map
      → e.manifest ≡ d.manifest
      → e.max_dirty_objects ≡ d.max_dirty_objects
      → e.committer ≡ d.committer
      → e.backend ≡ d.backend
      → SameFiles d.store e.store
      → Fills D B C d e
  quiet_count d e p q r c b s = Quiet-Fills D J B C d e (record {
    same_map = p;
    same_manifest = q;
    same_limit = r;
    same_committer = c;
    same_files = s;
    messages = λ m bytes h. rw b h;
  })

  read-Fills :
      (d : BlockDevice B) (id generation : ℕ) (sha : Text)
      → Fills D B C d (record d { store = (read_cache D id generation sha d.store).1 })
  read-Fills d id generation sha =
      quiet_count d _ refl refl refl refl refl (read_cache-SameFiles D id generation sha d.store)

  wanted_uncached-Finds :
      (d : BlockDevice B) (id : ℕ) (entry : ManifestObject) (remote : RemoteObjectRef) (sha : Text)
      (o : Option (List ℕ))
      → Candidate d id entry
      → entry.remote ≡ some remote
      → Finds d (wanted_uncached D J B id entry.generation remote sha o d)
  unfolding wanted_uncached
  wanted_uncached-Finds d id entry remote sha (some cached) c r = (
    quiet_count d _ refl refl refl refl refl (record { files = refl; rows = refl; dir = refl }),
    λ w h. cc,
  )
  wanted_uncached-Finds d id entry remote sha none (fits, undirtied, found) r = (
    Fills-refl D B C d,
    λ w h. subst (IsWanted D J B C d) (some_eq (ok_injective h)) (record {
      entry = entry;
      fits = fits;
      undirtied = undirtied;
      found = found;
      has_remote = r;
      generation = refl;
    }),
  )

  Candidate-Fills :
      (d e : BlockDevice B) (id : ℕ) (entry : ManifestObject)
      → Fills D B C d e
      → Candidate d id entry
      → Candidate e id entry
  unfolding dirty_object
  Candidate-Fills d e id entry a (fits, undirtied, found) =
      (fits, rw a.same_rows undirtied, ap (λ m. find_object id m.objects) a.same_manifest ∙ found)

  wanted_refs-Finds :
      (d : BlockDevice B) (id : ℕ) (entry : ManifestObject) (o : Option RemoteObjectRef)
      (s : Option Text)
      → Candidate d id entry
      → entry.remote ≡ o
      → Finds d (wanted_refs D J B id entry.generation o s d)
  unfolding wanted_refs
  wanted_refs-Finds d id entry (some remote) (some sha) c r =
      let e : BlockDevice B = record d {
        store = (read_cache D id entry.generation sha d.store).1;
      } in
      let fills : Fills D B C d e = read-Fills d id entry.generation sha in
      elim (Result-cases (read_cache D id entry.generation sha d.store).0) [
        | inl (o, ok_o) ↦ rw ok_o (
            after fills (
              wanted_uncached-Finds e id entry remote sha o (Candidate-Fills d e id entry fills c)
                r))
        | inr (x, failed) ↦ rw failed (fills, λ w h. cc)
      ]
  wanted_refs-Finds d id entry none s c r = (Fills-refl D B C d, λ w h. cc)
  wanted_refs-Finds d id entry (some remote) none c r = (Fills-refl D B C d, λ w h. cc)

  wanted_entry-Finds :
      (d : BlockDevice B) (id : ℕ) (entry : ManifestObject)
      → Candidate d id entry
      → Finds d (wanted_entry D J B id entry d)
  unfolding wanted_entry
  wanted_entry-Finds d id entry c = elim (Bool-cases entry.zero) [
    | inl z ↦ rw z (Fills-refl D B C d, λ w h. cc)
    | inr n ↦ rw n (wanted_refs-Finds d id entry entry.remote entry.sha256 c refl)
  ]

  -- The rounds collect entries that are wanted.
  abbrev Collects : BlockDevice B → Result Error (List Wanted) × BlockDevice B → Type 0
  Collects d r = Fills D B C d r.1 × ((ws : List Wanted) → r.0 ≡ ok ws → AllWanted D J B C r.1 ws)

  resume :
      {d e : BlockDevice B} {r : Result Error (List Wanted) × BlockDevice B}
      → Fills D B C d e
      → Collects e r
      → Collects d r
  resume a (fills, wanted) = (Fills-trans D B C a fills, wanted)

  undirtied_at :
      (d : BlockDevice B) (dirty : List DirtyObject) (id : ℕ)
      → d.store.dirty_rows ≡ dirty
      → is_dirty id dirty ≡ false
      → dirty_object d.store id ≡ none
  unfolding dirty_object
  undirtied_at d dirty id rows free = rw rows (is_dirty-none id dirty free)

  wanted_loop-Collects :
      (dirty : List DirtyObject) (n id : ℕ) (out : List Wanted) (d : BlockDevice B)
      → d.store.dirty_rows ≡ dirty
      → id + n < 2 ^ 64
      → AllWanted D J B C d out
      → Collects d (wanted_loop D J B dirty n id out d)
  unfolding wanted_loop
  wanted_loop-Collects dirty zero id out d rows fits all =
      (Fills-refl D B C d, λ ws h. subst (AllWanted D J B C d) (ok_injective h) all)
  wanted_loop-Collects dirty (suc n) id out d rows fits all =
      elim (Bool-cases (is_dirty id dirty)) [
        | inl waits ↦
            rw (waits, wanted_loop)
              (wanted_loop-Collects dirty n (id + 1) out d rows (omega arith) all)
        | inr free ↦ elim (Option-cases (find_object id d.manifest.objects)) [
          | inl past ↦
              rw (free, past, wanted_loop)
                (Fills-refl D B C d, λ ws h. subst (AllWanted D J B C d) (ok_injective h) all)
          | inr (entry, found) ↦
              rw (free, found, wanted_loop)
                (elim (Result-cases (wanted_entry D J B id entry d).0) [
                  | inl (o, e) ↦
                      let (fills, wanted) =
                        wanted_entry-Finds d id entry
                          (omega arith, undirtied_at d dirty id rows free, found) in
                      rw e (
                        resume fills (
                          wanted_loop-Collects dirty n (id + 1) (push D J B o out)
                            (wanted_entry D J B id entry d).1 (fills.same_rows ∙ rows) (omega arith)
                            (AllWanted-push D J B C _ out o
                              (AllWanted-Fills D J B C d _ out fills all)
                              (λ w q. wanted w (e ∙ ap ok q)))))
                  | inr (x, e) ↦
                      let (fills, wanted) =
                        wanted_entry-Finds d id entry
                          (omega arith, undirtied_at d dirty id rows free, found) in
                      rw e (fills, λ ws h. cc)
                ])
        ]
      ]

  -- What came back is what the channel holds.
  abbrev AllHeld : BlockDevice B → List Wanted → List (Option (List ℕ)) → Type 0
  AllHeld d (w ∷ ws) (some bytes ∷ found) =
      (C.message d.backend w.remote.message_id ≡ some bytes) × AllHeld d ws found
  AllHeld d (w ∷ ws) (none ∷ found) = AllHeld d ws found
  AllHeld d [] found = Unit {0}
  AllHeld d (w ∷ ws) [] = Unit {0}

  keep_fetched-Fills :
      (ws : List Wanted) (found : List (Option (List ℕ))) (d : BlockDevice B)
      → AllWanted D J B C d ws
      → AllHeld d ws found
      → Fills D B C d (record d { store = keep_fetched D J B ws found d.store })
  unfolding keep_fetched
  keep_fetched-Fills [] found d all held = Fills-refl D B C d
  keep_fetched-Fills (w ∷ ws) [] d all held = Fills-refl D B C d
  keep_fetched-Fills (w ∷ ws) (none ∷ found) d all held = keep_fetched-Fills ws found d all.1 held
  keep_fetched-Fills (w ∷ ws) (some bytes ∷ found) d all held =
      let e : BlockDevice B = record d {
        store = (write_cache D w.object_id w.generation bytes false d.store).1;
      } in
      let fills : Fills D B C d e = keep_one D J B C d w bytes all.0 held.0 in
      elim (Bool-cases (text_eq (sha256_hex D bytes) w.sha256)) [
        | inr bad ↦ rw bad (keep_fetched-Fills ws found d all.1 held.1)
        | inl good ↦ elim (Result-cases (decode D bytes w.object_id w.generation)) [
          | inl (envelope, r) ↦
              rw (good, r)
                (Fills-trans D B C fills (
                  keep_fetched-Fills ws found e (AllWanted-Fills D J B C d e ws fills all.1)
                    held.1))
          | inr (x, r) ↦ rw (good, r) (keep_fetched-Fills ws found d all.1 held.1)
        ]
      ]

  AnswersFrom-AllHeld :
      (d : BlockDevice B) (s : B.State) (ws : List Wanted) (found : List (Option (List ℕ)))
      → ((m : ℕ) (bytes : List ℕ) → C.message s m ≡ some bytes → C.message d.backend m ≡ some bytes)
      → AnswersFrom (C.message s) (map (λ w. w.remote.message_id) ws) found
      → AllHeld d ws found
  AnswersFrom-AllHeld d s [] found keep h = tt
  AnswersFrom-AllHeld d s (w ∷ ws) [] keep h = tt
  AnswersFrom-AllHeld d s (w ∷ ws) (none ∷ found) keep h = AnswersFrom-AllHeld d s ws found keep h
  AnswersFrom-AllHeld d s (w ∷ ws) (some bytes ∷ found) keep (e, h) =
      (keep w.remote.message_id bytes e, AnswersFrom-AllHeld d s ws found keep h)

  abbrev after_get : BlockDevice B → List ℕ → DeviceMetrics → BlockDevice B
  after_get d ids metrics = record d {
    backend = (B.get_messages_by_id ids d.backend).1;
    metrics = metrics;
  }

  after_get-Fills :
      (d : BlockDevice B) (ids : List ℕ) (metrics : DeviceMetrics)
      → Fills D B C d (after_get d ids metrics)
  after_get-Fills d ids metrics = Quiet-Fills D J B C d (after_get d ids metrics) (record {
    same_map = refl;
    same_manifest = refl;
    same_limit = refl;
    same_committer = refl;
    same_files = record { files = refl; rows = refl; dir = refl };
    messages = C.get_keeps ids d.backend;
  })

  fetched-Fills :
      (ws : List Wanted) (found : List (Option (List ℕ))) (d : BlockDevice B)
      (metrics : DeviceMetrics)
      → AllWanted D J B C d ws
      → (B.get_messages_by_id (map (λ w. w.remote.message_id) ws) d.backend).0 ≡ ok found
      → Fills D B C d (record (after_get d (map (λ w. w.remote.message_id) ws) metrics) {
        store = keep_fetched D J B ws found d.store;
      })
  fetched-Fills ws found d metrics all r =
      let ids : List ℕ = map (λ w. w.remote.message_id) ws in
      let e : BlockDevice B = after_get d ids metrics in
      let got : Fills D B C d e = after_get-Fills d ids metrics in
      Fills-trans D B C got (
        keep_fetched-Fills ws found e (AllWanted-Fills D J B C d e ws got all) (
          AnswersFrom-AllHeld e d.backend ws found (C.get_keeps ids d.backend)
            (C.get_reads ids d.backend found r)))

  fetch_wanted-Fills :
      (ws : List Wanted) (d : BlockDevice B)
      → AllWanted D J B C d ws
      → Fills D B C d (fetch_wanted D J B ws d).1
  unfolding fetch_wanted
  fetch_wanted-Fills [] d all = Fills-refl D B C d
  fetch_wanted-Fills (w ∷ ws) d all =
      let ids : List ℕ = map (λ w. w.remote.message_id) (w ∷ ws) in
      elim (Result-cases (B.get_messages_by_id ids d.backend).0) [
        | inl (found, r) ↦ rw r (fetched-Fills (w ∷ ws) found d _ all r)
        | inr (x, r) ↦ rw r (after_get-Fills d ids _)
      ]

  prefetch_objects-Fills :
      (start n : ℕ) (d : BlockDevice B)
      → start < 2 ^ 64
      → Fills D B C d (prefetch_objects D J B start n d).1
  unfolding prefetch_objects dirty_objects
  prefetch_objects-Fills start n d lt =
      let rounds : ℕ = min n (2 ^ 64 - 1 - start) in
      let (fills, wanted) =
        wanted_loop-Collects d.store.dirty_rows rounds start [] d refl (omega arith) tt in
      elim (Result-cases (wanted_loop D J B d.store.dirty_rows rounds start [] d).0) [
        | inl (ws, r) ↦ rw r (Fills-trans D B C fills (fetch_wanted-Fills ws _ (wanted ws r)))
        | inr (x, r) ↦ rw r fills
      ]

  -- Whatever comes of the read-ahead, no object changes, on a device of sizes in their range.
  pub read_ahead-Fills :
      (m : BlockMap) (cursor : ℕ) (d : BlockDevice B)
      → IsSized m
      → d.map ≡ m
      → Fills D B C d (read_ahead D J B cursor d)
  unfolding read_ahead
  read_ahead-Fills m cursor d sized e = elim (Bool-cases (ltb cursor d.map.device_size)) [
    | inr past ↦ rw past (Fills-refl D B C d)
    | inl inside ↦
        let lt : cursor < m.device_size =
          subst (λ m'. cursor < m'.device_size) e (ltb→lt _ _ inside) in
        let p : Place m cursor (cursor / m.object_size) (cursor % m.object_size) =
          place m cursor sized lt in
        let located : locate d.map cursor ≡ ok (cursor / m.object_size, cursor % m.object_size) =
          ap (λ m'. locate m' cursor) e ∙ p.found in
        elim (Bool-cases (cursor % m.object_size == 0)) [
          | inl starts ↦
              rw (inside, located, starts)
                (prefetch_objects-Fills _ d.read_ahead_objects d p.id_fits)
          | inr amid ↦ rw (inside, located, amid) (Fills-refl D B C d)
        ]
  ]
