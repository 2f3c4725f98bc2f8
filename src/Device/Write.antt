-- ===== src/Device/Write.antt =====
-- `write_at` overwrites a range of the disk.
use telegram_block_device.Prelude.{
  ℕ, zero, suc, ◌+◌, ◌-◌, ◌*◌, ◌/◌, ◌%◌, ◌^◌, ◌≤◌, ◌<◌, ◌≡◌, ◌≢◌, refl, sym, ◌∙◌, ap, subst, ◌⊎◌,
  inl, inr, true, List, [], ◌∷◌, ◌++◌, ok, min, arith, take, drop, splice, length, replicate,
  length-replicate, length-take, length-drop, take-append-drop, drop-append_length, append-nil,
  Result, leb, le→leb, ◌==◌, ◌&&◌, Bool-cases, ℕ-cases, le_total,
}
use mathlib.Core.Path.{fun_ext}
use native.Mathlib.Nat.{add-zero}
use telegram_block_device.Prelude.Bytes.{div_digit}
use telegram_block_device.Format.Digest.{Digest}
use telegram_block_device.Format.Manifest.{ManifestJson}
use telegram_block_device.Block.{BlockMap, locate}
use telegram_block_device.Backend.{RemoteBackend, Channel, IsReadable}
use telegram_block_device.Disk.{
  bytes_from, overwrite, bytes_from_eq, overwrite_outside, splice-bytes_from, length-bytes_from,
  overwrite-append,
}
use telegram_block_device.Errors.{Error}
use telegram_block_device.Device.{BlockDevice, base_object, write_loop, write_at}
use telegram_block_device.Device.Holds.{Holds, Fills, Fills-refl}
use telegram_block_device.Device.ReadObject.{read_object_lem}
use telegram_block_device.Device.Represents.{
  IsSized, Represents, Represents-Fills, id_bound, Place, place,
}
use telegram_block_device.Device.WriteObject.{Updates, result, write_dirty_object_lem}

-- A piece inside one object lies outside every other object.
disjoint :
    (size i j at n a : ℕ)
    → i ≢ j
    → at + n ≤ size
    → j * size ≤ a
    → a < j * size + size
    → (a < i * size + at) ⊎ (i * size + at + n ≤ a)
disjoint size i j at n a ne fits low high = elim (order i j ne) [
  | inl lt ↦ inr (omega (arith, steps i j lt))
  | inr gt ↦ inl (omega (arith, steps j i gt))
]
  where
    order : (i j : ℕ) → i ≢ j → (i < j) ⊎ (j < i)
    order i j ne = grind arith

    steps : (x y : ℕ) → x < y → x * size + size ≤ y * size
    steps x y lt = grind arith

-- A splice over all of an object forgets the object.
splice_whole :
    (xs ys bytes : List ℕ)
    → length xs ≡ length bytes
    → length ys ≡ length bytes
    → splice xs 0 bytes ≡ splice ys 0 bytes
splice_whole xs ys bytes h k = ap (λ t. bytes ++ t) (behind xs bytes h ∙ sym (behind ys bytes k))
  where
    behind : (xs bytes : List ℕ) → length xs ≡ length bytes → drop (0 + length bytes) xs ≡ []
    behind xs bytes h =
        let e : 0 + length bytes ≡ length xs + 0 = omega arith in
        rw e (
          ap (λ t. drop (length xs + 0) t) (sym (append-nil xs))
          ∙ rw add-zero (drop-append_length (length xs) xs [] refl))

pub overwrite_nil : (f : ℕ → ℕ) (start a : ℕ) → f a ≡ overwrite f start [] a
overwrite_nil f start a = sym (overwrite_outside f start [] a (side a start))
  where
    side : (a start : ℕ) → (a < start) ⊎ (start + 0 ≤ a)
    side a start = grind arith

-- After a round the rest is counted from the border of an object, or there is no rest.
span_next :
    (size cursor len objects id at : ℕ)
    → id * size + at ≡ cursor
    → at < size
    → len ≤ suc objects * size - at
    → len - min len (size - at) ≤ objects * size - (cursor + min len (size - at)) % size
span_next size cursor len objects id at e inside span = elim (le_total len (size - at)) [
  | inl short ↦ omega arith
  | inr long ↦
      let border : cursor + min len (size - at) ≡ (id + 1) * size + 0 = omega arith in
      rw border (rw (div_digit size (id + 1) 0 (omega arith)).1 (omega arith))
]

pub joined :
    (f : ℕ → ℕ) (cursor n : ℕ) (bytes : List ℕ)
    → n ≤ length bytes
    → (a : ℕ)
    → overwrite (overwrite f cursor (take n bytes)) (cursor + n) (drop n bytes) a
      ≡ overwrite f cursor bytes a
joined f cursor n bytes le a =
    let e : length (take n bytes) ≡ n = omega (arith, length-take n bytes) in
    ap (λ k. overwrite (overwrite f cursor (take n bytes)) (cursor + k) (drop n bytes) a) (sym e)
    ∙ overwrite-append f cursor (take n bytes) (drop n bytes) a
    ∙ ap (λ xs. overwrite f cursor xs a) (take-append-drop n bytes)

module _ (D : Digest) (J : ManifestJson) (B : RemoteBackend) (C : Channel B)
    (readable : IsReadable D B C) (m : BlockMap) (sized : IsSized m) where
  -- One updated object is one write to the disk.
  Represents-Updates :
      (f : ℕ → ℕ) (d e : BlockDevice B) (id at : ℕ) (piece : List ℕ)
      → Represents D B C m f d
      → at + length piece ≤ m.object_size
      → Updates D J B C d e id (splice (bytes_from f (id * m.object_size) m.object_size) at piece)
      → Represents D B C m (overwrite f (id * m.object_size + at) piece) e
  Represents-Updates f d e id at piece r fits u = record {
    same_map = u.same_map ∙ r.same_map;
    ascending = u.ascending r.ascending;
    each = λ j lt. elim (ℕ-cases id j) [
      | inl same ↦
          subst (λ j. Holds D B C e j (bytes_from w (j * m.object_size) m.object_size)) same
            (rw (splice-bytes_from f (id * m.object_size) at m.object_size piece fits) at u.written)
      | inr ne ↦
          subst (Holds D B C e j)
            (bytes_from_eq f w (j * m.object_size) m.object_size (λ a low high. sym (
              overwrite_outside f (id * m.object_size + at) piece a
                (disjoint m.object_size id j at (length piece) a ne fits low high))))
            (u.keeps j _
              (id_bound j m.object_size m.device_size sized.not_empty lt sized.device_size) ne
              (r.each j lt))
    ];
  }
    where
      w : ℕ → ℕ
      w = overwrite f (id * m.object_size + at) piece

  -- What a write starts from is right wherever the piece does not go.
  pub record Based (f : ℕ → ℕ) (d : BlockDevice B) (id at n : ℕ) (piece : List ℕ) : Type 0 where
    pub object : List ℕ
    pub value : (base_object D J B id at n d).0 ≡ ok object
    pub fills : Fills D B C d (base_object D J B id at n d).1
    pub spliced :
        splice object at piece ≡ splice (bytes_from f (id * m.object_size) m.object_size) at piece

  pub base_object_lem :
      (f : ℕ → ℕ) (d : BlockDevice B) (id at n : ℕ) (piece : List ℕ)
      → Represents D B C m f d
      → id < 2 ^ 64
      → id * m.object_size < m.device_size
      → length piece ≡ n
      → Based f d id at n piece
  unfolding base_object
  base_object_lem f d id at n piece r lt inside len =
      elim (Bool-cases (at == 0 && n == d.map.object_size)) [
        | inr part ↦
            let (reads, fills) = read_object_lem D J B C d id _ readable lt (r.each id inside) in
            record { object = _; value = rw part reads; fills = rw part fills; spliced = refl }
        | inl whole ↦ record {
          object = replicate d.map.object_size 0;
          value = rw whole refl;
          fills = rw whole (Fills-refl D B C d);
          spliced = all_new whole;
        }
      ]
    where
      all_new :
          (at == 0 && n == d.map.object_size) ≡ true
          → splice (replicate d.map.object_size 0) at piece
            ≡ splice (bytes_from f (id * m.object_size) m.object_size) at piece
      all_new whole =
          let zero_at : at ≡ 0 = ground arith in
          let n_is : n ≡ d.map.object_size = ground arith in
          rw zero_at (
            splice_whole _ _ piece (length-replicate d.map.object_size 0 ∙ sym n_is ∙ sym len) (
              length-bytes_from f (id * m.object_size) m.object_size
              ∙ ap (λ m'. m'.object_size) (sym r.same_map)
              ∙ sym n_is
              ∙ sym len))

  -- One round of the loop writes a piece into one object.
  pub record Round (f : ℕ → ℕ) (d : BlockDevice B) (fuel cursor n : ℕ) (data' : List ℕ)
      : Type 0 where
    pub after : BlockDevice B
    pub steps :
        write_loop D J B (suc fuel) cursor data' d
        ≡ write_loop D J B fuel (cursor + n) (drop n data') after
    pub represents : Represents D B C m (overwrite f cursor (take n data')) after
    pub rows : length after.store.dirty_rows ≤ suc (length d.store.dirty_rows)
    pub limit : after.max_dirty_objects ≡ d.max_dirty_objects
    pub same_committer : after.committer ≡ d.committer

  pub round :
      (f : ℕ → ℕ) (d : BlockDevice B) (fuel cursor : ℕ) (b : ℕ) (bytes : List ℕ) (n : ℕ)
      → Represents D B C m f d
      → cursor + suc (length bytes) ≤ m.device_size
      → n ≡ min (suc (length bytes)) (m.object_size - cursor % m.object_size)
      → length d.store.dirty_rows < d.max_dirty_objects
      → Round f d fuel cursor n (b ∷ bytes)
  unfolding write_loop
  round f d fuel cursor b bytes n r fits en room =
      let id : ℕ = cursor / m.object_size in
      let at : ℕ = cursor % m.object_size in
      let p : Place m cursor id at = place m cursor sized (omega arith) in
      let piece : List ℕ = take n (b ∷ bytes) in
      let len : length piece ≡ n = omega (arith, length-take n (b ∷ bytes)) in
      let base : Based f d id at n piece =
        base_object_lem f d id at n piece r p.id_fits p.object_inside len in
      let e : BlockDevice B = (base_object D J B id at n d).1 in
      let re : Represents D B C m f e = Represents-Fills D B C m f sized r base.fills in
      let inside : at + length piece ≤ m.object_size = omega (arith, p.inside) in
      let whole : length (splice base.object at piece) ≡ e.map.object_size =
        ap length
          (base.spliced ∙ splice-bytes_from f (id * m.object_size) at m.object_size piece inside)
        ∙ length-bytes_from _ (id * m.object_size) m.object_size
        ∙ ap (λ m'. m'.object_size) (sym re.same_map) in
      let rows_e : length e.store.dirty_rows ≡ length d.store.dirty_rows =
        ap length base.fills.same_rows in
      let limit_e : e.max_dirty_objects ≡ d.max_dirty_objects = base.fills.same_limit in
      let located : locate d.map cursor ≡ ok (id, at) =
        ap (λ m'. locate m' cursor) r.same_map ∙ p.found in
      let taken : min (suc (length bytes)) (d.map.object_size - at) ≡ n =
        ap (λ m'. min (suc (length bytes)) (m'.object_size - at)) r.same_map ∙ sym en in
      let small : (cursor + n) % 2 ^ 64 ≡ cursor + n = omega (arith, sized.device_size) in
      let (ran, updates) =
        write_dirty_object_lem D J B C e id (splice base.object at piece) at n
          (subst IsSized (sym re.same_map) sized) p.id_fits whole (omega arith) in
      record {
        after = result D J B C e id (splice base.object at piece) at n;
        steps =
            rw (located, taken, base.value, ran)
              (ap
                (λ c.
                  write_loop D J B fuel c (drop n (b ∷ bytes))
                    (result D J B C e id (splice base.object at piece) at n))
                small);
        represents =
            subst
              (λ c.
                Represents D B C m (overwrite f c piece)
                  (result D J B C e id (splice base.object at piece) at n))
              p.start
              (Represents-Updates f e _ id at piece re inside (
                subst
                  (Updates D J B C e (result D J B C e id (splice base.object at piece) at n) id)
                  base.spliced updates));
        rows = omega (arith, updates.one_row);
        limit = updates.same_limit ∙ limit_e;
        same_committer = base.fills.same_committer;
      }

  pub Represents-eq :
      (f g : ℕ → ℕ) (d : BlockDevice B)
      → ((a : ℕ) → f a ≡ g a)
      → Represents D B C m f d
      → Represents D B C m g d
  Represents-eq f g d h r = subst (λ k. Represents D B C m k d) (fun_ext h) r

  -- What a write of `bytes` from `cursor` on has done, if it has `objects` rows to spare.
  abbrev Writes :
      (ℕ → ℕ) → BlockDevice B → ℕ → List ℕ → Result Error (Unit {0}) × BlockDevice B → Type 0
  Writes f d cursor bytes r = (r.0 ≡ ok tt) × Represents D B C m (overwrite f cursor bytes) r.1

  write_loop_lem :
      (fuel cursor : ℕ) (bytes : List ℕ) (objects : ℕ) (f : ℕ → ℕ) (d : BlockDevice B)
      → Represents D B C m f d
      → cursor + length bytes ≤ m.device_size
      → length bytes ≤ fuel
      → length bytes ≤ objects * m.object_size - cursor % m.object_size
      → length d.store.dirty_rows + objects ≤ d.max_dirty_objects
      → Writes f d cursor bytes (write_loop D J B fuel cursor bytes d)
  write_loop_lem fuel cursor [] objects f d r fits le span room =
      unfold write_loop in (refl, Represents-eq f _ d (overwrite_nil f cursor) r)
  write_loop_lem zero cursor (b ∷ bytes) objects f d r fits le span room = absurd (omega arith)
  write_loop_lem (suc fuel) cursor (b ∷ bytes) zero f d r fits le span room = absurd (omega arith)
  write_loop_lem (suc fuel) cursor (b ∷ bytes) (suc objects) f d r fits le span room =
      let n : ℕ = min (suc (length bytes)) (m.object_size - cursor % m.object_size) in
      let p : Place m cursor (cursor / m.object_size) (cursor % m.object_size) =
        place m cursor sized (omega arith) in
      let g : Round f d fuel cursor n (b ∷ bytes) =
        round f d fuel cursor b bytes n r fits refl (omega arith) in
      let (value, more) =
        write_loop_lem fuel (cursor + n) (drop n (b ∷ bytes)) objects
          (overwrite f cursor (take n (b ∷ bytes))) g.after g.represents
          (omega (arith, length-drop n (b ∷ bytes)))
          (omega (arith, length-drop n (b ∷ bytes), p.inside))
          (rw (length-drop n (b ∷ bytes))
            (span_next m.object_size cursor (suc (length bytes)) objects _ _ p.start p.inside span))
          (omega (arith, g.rows, g.limit)) in
      rw g.steps (value, Represents-eq _ _ _ (joined f cursor n (b ∷ bytes) (omega arith)) more)

  -- On a channel that can be read, a write inside the device, with rows to spare for as many objects
  -- as its range spans, succeeds, and the device represents the disk that is overwritten in that range.
  pub write_at_lem :
      (offset : ℕ) (bytes : List ℕ) (objects : ℕ) (f : ℕ → ℕ) (d : BlockDevice B)
      → Represents D B C m f d
      → offset + length bytes ≤ m.device_size
      → length bytes ≤ objects * m.object_size - offset % m.object_size
      → length d.store.dirty_rows + objects ≤ d.max_dirty_objects
      → ((write_at D J B offset bytes d).0 ≡ ok tt)
        × Represents D B C m (overwrite f offset bytes) (write_at D J B offset bytes d).1
  unfolding write_at
  write_at_lem offset bytes objects f d r fits span room =
      let small : (offset + length bytes) % 2 ^ 64 ≡ offset + length bytes =
        omega (arith, sized.device_size) in
      let inside : leb ((offset + length bytes) % 2 ^ 64) d.map.device_size ≡ true =
        rw small (
          le→leb _ _
            (subst (λ m'. offset + length bytes ≤ m'.device_size) (sym r.same_map) fits)) in
      rw inside
        (write_loop_lem (length bytes) offset bytes objects f d r fits (omega arith) span room)
