-- ===== src/Device/Read.antt =====
-- `read_at` returns the bytes of the disk.
use telegram_block_device.Prelude.{
  ℕ, zero, suc, ◌+◌, ◌-◌, ◌*◌, ◌/◌, ◌%◌, ◌^◌, ◌≤◌, ◌<◌, ◌≡◌, refl, sym, ◌∙◌, ap, ap₂, subst, List,
  [], ◌++◌, ok, min, arith, slice, leb, le→leb, true, append-nil, append_assoc, Result,
}
use telegram_block_device.Format.Digest.{Digest}
use telegram_block_device.Format.Manifest.{ManifestJson}
use telegram_block_device.Block.{BlockMap, locate}
use telegram_block_device.Backend.{RemoteBackend, Channel, IsReadable}
use telegram_block_device.Disk.{bytes_from, bytes_from-add, slice-bytes_from}
use telegram_block_device.Errors.{Error}
use telegram_block_device.Device.{BlockDevice, read_object, read_ahead, read_loop, read_at}
use telegram_block_device.Device.Holds.{Fills, Fills-refl, Fills-trans}
use telegram_block_device.Device.ReadObject.{read_object_lem}
use telegram_block_device.Device.ReadAhead.{read_ahead-Fills}
use telegram_block_device.Device.Represents.{
  id_bound, IsSized, Represents, Represents-Fills, Place, place,
}

module _ (D : Digest) (J : ManifestJson) (B : RemoteBackend) (C : Channel B)
    (readable : IsReadable D B C) (m : BlockMap) (f : ℕ → ℕ) (sized : IsSized m) where
  -- What a loop that reads `n` bytes behind `out` has done.
  abbrev Reads : BlockDevice B → ℕ → ℕ → List ℕ → Result Error (List ℕ × ℕ) × BlockDevice B → Type 0
  Reads d n cursor out r = (r.0 ≡ ok (out ++ bytes_from f cursor n, cursor + n)) × Fills D B C d r.1

  round :
      (fuel rest cursor : ℕ) (out : List ℕ) (d : BlockDevice B)
      → Represents D B C m f d
      → cursor + suc rest ≤ m.device_size
      → (n : ℕ) → (n ≡ min (suc rest) (m.object_size - cursor % m.object_size))
      → (let e = (read_object D J B (cursor / m.object_size) d).1 in
          (read_loop D J B (suc fuel) (suc rest) cursor out d
            ≡ read_loop D J B fuel (suc rest - n) (cursor + n) (out ++ bytes_from f cursor n) e)
          × Fills D B C d e)
  unfolding read_loop
  round fuel rest cursor out d r fits n en =
      let p : Place m cursor (cursor / m.object_size) (cursor % m.object_size) =
        place m cursor sized (omega arith) in
      let (reads, fills) =
        read_object_lem D J B C d (cursor / m.object_size) _ readable p.id_fits
          (r.each _ p.object_inside) in
      let cut : slice (cursor % m.object_size) (cursor % m.object_size + n)
            (bytes_from f (cursor / m.object_size * m.object_size) m.object_size)
          ≡ bytes_from f cursor n =
        slice-bytes_from f _ (cursor % m.object_size) n m.object_size (omega (arith, p.inside))
        ∙ ap (λ s. bytes_from f s n) p.start in
      let small : (cursor + n) % 2 ^ 64 ≡ cursor + n = omega (arith, sized.device_size) in
      let located : locate d.map cursor ≡ ok (cursor / m.object_size, cursor % m.object_size) =
        ap (λ m. locate m cursor) r.same_map ∙ p.found in
      let taken : min (suc rest) (d.map.object_size - cursor % m.object_size) ≡ n =
        ap (λ m'. min (suc rest) (m'.object_size - cursor % m.object_size)) r.same_map ∙ sym en in
      (
        rw (located, reads, taken)
            (ap₂
              (λ c xs.
                read_loop D J B fuel (suc rest - n) c xs
                  (read_object D J B (cursor / m.object_size) d).1)
              small (ap (λ xs. out ++ xs) cut)),
        fills,
      )

  -- With a round for every byte the loop reads to its end.
  read_loop_lem :
      (fuel n cursor : ℕ) (out : List ℕ) (d : BlockDevice B)
      → Represents D B C m f d
      → cursor + n ≤ m.device_size
      → n ≤ fuel
      → Reads d n cursor out (read_loop D J B fuel n cursor out d)
  read_loop_lem fuel zero cursor out d r fits le =
      let e : cursor + 0 ≡ cursor = omega arith in
      unfold read_loop bytes_from in (rw (e, append-nil) refl, Fills-refl D B C d)
  read_loop_lem zero (suc n) cursor out d r fits le = absurd (omega arith)
  read_loop_lem (suc fuel) (suc n) cursor out d r fits le =
      let k : ℕ = min (suc n) (m.object_size - cursor % m.object_size) in
      let p : Place m cursor (cursor / m.object_size) (cursor % m.object_size) =
        place m cursor sized (omega arith) in
      let (steps, fills) = round fuel n cursor out d r fits k refl in
      let e : BlockDevice B = (read_object D J B (cursor / m.object_size) d).1 in
      let (value, more) =
        read_loop_lem fuel (suc n - k) (cursor + k) (out ++ bytes_from f cursor k) e
          (Represents-Fills D B C m f sized r fills) (omega (arith, p.inside))
          (omega (arith, p.inside)) in
      rw steps (
        value
            ∙ ap ok (
                ap₂ (λ xs c. (xs, c)) (joined k (omega (arith, p.inside)))
                  (omega (arith, p.inside))),
        Fills-trans D B C fills more,
      )
    where
      joined :
          (k : ℕ)
          → k ≤ suc n
          → (out ++ bytes_from f cursor k) ++ bytes_from f (cursor + k) (suc n - k)
            ≡ out ++ bytes_from f cursor (suc n)
      joined k le =
          let e : k + (suc n - k) ≡ suc n = omega arith in
          append_assoc out (bytes_from f cursor k) _
          ∙ ap (λ xs. out ++ xs)
              (sym (bytes_from-add f cursor k (suc n - k)) ∙ ap (bytes_from f cursor) e)

  pub read_at-Fills :
      (offset n : ℕ) (d : BlockDevice B)
      → Represents D B C m f d
      → offset + n ≤ m.device_size
      → ((read_at D J B offset n d).0 ≡ ok (bytes_from f offset n))
        × Fills D B C d (read_at D J B offset n d).1
  unfolding read_at
  read_at-Fills offset n d r fits =
      let (value, fills) = read_loop_lem n n offset [] d r fits (omega arith) in
      let small : (offset + n) % 2 ^ 64 ≡ offset + n = omega (arith, sized.device_size) in
      let inside : leb ((offset + n) % 2 ^ 64) d.map.device_size ≡ true =
        rw small (le→leb _ _ (subst (λ m'. offset + n ≤ m'.device_size) (sym r.same_map) fits)) in
      let e : BlockDevice B = (read_loop D J B n n offset [] d).1 in
      rw (inside, value)
        (
          refl,
          Fills-trans D B C fills
              (read_ahead-Fills D J B C m (offset + n) e sized (fills.same_map ∙ r.same_map)),
        )

  -- On a channel that can be read, a read inside the device returns the bytes of the disk that the
  -- device represents, and leaves the device representing the same disk.
  pub read_at_lem :
      (offset n : ℕ) (d : BlockDevice B)
      → Represents D B C m f d
      → offset + n ≤ m.device_size
      → ((read_at D J B offset n d).0 ≡ ok (bytes_from f offset n))
        × Represents D B C m f (read_at D J B offset n d).1
  read_at_lem offset n d r fits =
      let (value, fills) = read_at-Fills offset n d r fits in
      (value, Represents-Fills D B C m f sized r fills)

  -- On a channel that can be read, a read of an object of the device, wherever that is kept, returns
  -- its range of the disk that the device represents, and leaves the device representing the disk.
  pub read_object-Represents :
      (id : ℕ) (d : BlockDevice B)
      → Represents D B C m f d
      → id * m.object_size < m.device_size
      → ((read_object D J B id d).0 ≡ ok (bytes_from f (id * m.object_size) m.object_size))
        × Represents D B C m f (read_object D J B id d).1
  read_object-Represents id d r inside =
      let fits : id < 2 ^ 64 =
        id_bound id m.object_size m.device_size sized.not_empty inside sized.device_size in
      let (value, fills) = read_object_lem D J B C d id _ readable fits (r.each id inside) in
      (value, Represents-Fills D B C m f sized r fills)

-- Whatever comes of the read-ahead behind an address, a device of sizes in their range represents the
-- same disk after it, on any channel.
pub read_ahead-Represents :
    (D : Digest) (J : ManifestJson) (B : RemoteBackend) (C : Channel B) (m : BlockMap) (f : ℕ → ℕ)
    (cursor : ℕ) (d : BlockDevice B)
    → IsSized m
    → Represents D B C m f d
    → Represents D B C m f (read_ahead D J B cursor d)
read_ahead-Represents D J B C m f cursor d sized r =
    Represents-Fills D B C m f sized r (read_ahead-Fills D J B C m cursor d sized r.same_map)
