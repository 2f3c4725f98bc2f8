-- ===== src/Tests/Codec.antt =====
-- A lossless form of manifests, their leaves and superblocks as lists of numbers, in place of JSON.
use telegram_block_device.Prelude.{
  ℕ, zero, suc, ◌≡◌, refl, ◌∙◌, ap, Bool, true, false, Option, none, some, List, [], ◌∷◌, Result,
  ok, err, length,
}
use telegram_block_device.Errors.{Error, json}
use telegram_block_device.Format.Manifest.{
  RemoteObjectRef, ManifestObject, Manifest, ManifestJson, IsLossless,
}
use telegram_block_device.Format.Tree.{ManifestTreeLeafRef, ManifestTreeRoot, ManifestTreeLeaf}
use telegram_block_device.Format.Superblock.{
  Superblock, SuperblockJson, ManifestEncoding, flat_json, tree,
}
use telegram_block_device.Format.Superblock
use telegram_block_device.Telegram.{TreeJson, ReadsBack}

pub record Codec (A : Type 0) : Type 0 where
  pub put : A → List ℕ → List ℕ
  pub get : List ℕ → Option (A × List ℕ)
  pub got : (a : A) (rest : List ℕ) → get (put a rest) ≡ some (a, rest)

abbrev pub then_get : {A B : Type 0} → (A → List ℕ → Option B) → Option (A × List ℕ) → Option B
then_get f none = none
then_get f (some (a, rest)) = f a rest

abbrev pub get_number : List ℕ → Option (ℕ × List ℕ)
get_number [] = none
get_number (n ∷ rest) = some (n, rest)

abbrev pub number : Codec ℕ
number = record { put = λ n rest. n ∷ rest; get = get_number; got = λ n rest. refl }

module _ {A : Type 0} (a : Codec A) where
  abbrev pub couple : {B : Type 0} → Codec B → Codec (A × B)
  couple b = record {
    put = λ (x, y) rest. a.put x (b.put y rest);
    get = λ bytes.
        then_get (λ x rest. then_get (λ y rest. some ((x, y), rest)) (b.get rest)) (a.get bytes);
    got = λ (x, y) rest.
        ap (then_get (λ x rest. then_get (λ y rest. some ((x, y), rest)) (b.get rest)))
          (a.got x (b.put y rest))
        ∙ ap (then_get (λ y rest. some ((x, y), rest))) (b.got y rest);
  }

  abbrev pub along :
      {B : Type 0} (from : B → A) (to : A → B) → ((y : B) → to (from y) ≡ y) → Codec B
  along from to back = record {
    put = λ y rest. a.put (from y) rest;
    get = λ bytes. then_get (λ x rest. some (to x, rest)) (a.get bytes);
    got = λ y rest.
        ap (then_get (λ x rest. some (to x, rest))) (a.got (from y) rest)
        ∙ ap (λ y. some (y, rest)) (back y);
  }

  abbrev pub put_all : List A → List ℕ → List ℕ
  put_all [] rest = rest
  put_all (x ∷ xs) rest = a.put x (put_all xs rest)

  abbrev pub get_all : ℕ → List ℕ → Option (List A × List ℕ)
  get_all zero bytes = some ([], bytes)
  get_all (suc n) bytes =
      then_get (λ x rest. then_get (λ xs rest. some (x ∷ xs, rest)) (get_all n rest)) (a.get bytes)

  pub got_all :
      (xs : List A) (rest : List ℕ) → get_all (length xs) (put_all xs rest) ≡ some (xs, rest)
  got_all [] rest = refl
  got_all (x ∷ xs) rest =
      ap (then_get (λ x rest. then_get (λ xs rest. some (x ∷ xs, rest)) (get_all (length xs) rest)))
        (a.got x (put_all xs rest))
      ∙ ap (then_get (λ xs rest. some (x ∷ xs, rest))) (got_all xs rest)

  abbrev pub many : Codec (List A)
  many = record {
    put = λ xs rest. length xs ∷ put_all xs rest;
    get = λ bytes. then_get get_all (get_number bytes);
    got = got_all;
  }

  abbrev pub head_of : List A → Option A
  head_of [] = none
  head_of (x ∷ xs) = some x

  abbrev pub list_of : Option A → List A
  list_of none = []
  list_of (some x) = x ∷ []

  pub head_of-list_of : (x : Option A) → head_of (list_of x) ≡ x
  head_of-list_of none = refl
  head_of-list_of (some x) = refl

abbrev pub perhaps : {A : Type 0} → Codec A → Codec (Option A)
perhaps a = along (many a) (list_of a) (head_of a) (head_of-list_of a)

abbrev pub is_one : ℕ → Bool
is_one zero = false
is_one (suc n) = true

abbrev pub bit : Bool → ℕ
bit true = 1
bit false = 0

pub is_one-bit : (b : Bool) → is_one (bit b) ≡ b
is_one-bit true = refl
is_one-bit false = refl

abbrev pub boolean : Codec Bool
boolean = along number bit is_one is_one-bit

abbrev pub remote : Codec RemoteObjectRef
remote =
    along (couple number (couple number (couple number (couple number (many number)))))
      (λ r. (r.chat_id, (r.message_id, (r.object_id, (r.generation, r.sha256)))))
      (λ (a, (b, (c, (d, e)))). record {
        chat_id = a;
        message_id = b;
        object_id = c;
        generation = d;
        sha256 = e;
      })
      (λ r. refl)

abbrev pub object : Codec ManifestObject
object =
    along
      (couple number
        (couple number (couple (perhaps remote) (couple (perhaps (many number)) boolean))))
      (λ o. (o.object_id, (o.generation, (o.remote, (o.sha256, o.zero)))))
      (λ (a, (b, (c, (d, e)))). record {
        object_id = a;
        generation = b;
        remote = c;
        sha256 = d;
        zero = e;
      })
      (λ o. refl)

abbrev pub manifest : Codec Manifest
manifest =
    along
      (couple (many number) (
        couple number (
          couple number
            (couple number (couple number (couple number (couple (many object) (many remote))))))))
      (λ m. (
        m.magic,
        (
          m.format_version,
          (
            m.device_uuid,
            (m.generation, (m.object_size, (m.object_count, (m.objects, m.garbage)))),
          ),
        ),
      ))
      (λ (a, (b, (c, (d, (e, (f, (g, h))))))). record {
        magic = a;
        format_version = b;
        device_uuid = c;
        generation = d;
        object_size = e;
        object_count = f;
        objects = g;
        garbage = h;
      })
      (λ m. refl)

abbrev pub leaf_ref : Codec ManifestTreeLeafRef
leaf_ref =
    along (couple number (couple number (couple number remote)))
      (λ r. (r.leaf_index, (r.start_object_id, (r.object_count, r.remote))))
      (λ (a, (b, (c, d))). record {
        leaf_index = a;
        start_object_id = b;
        object_count = c;
        remote = d;
      })
      (λ r. refl)

abbrev pub root : Codec ManifestTreeRoot
root =
    along
      (couple (many number) (
        couple number (
          couple number (
            couple number (
              couple number
                (couple number (couple number (couple (many leaf_ref) (many remote)))))))))
      (λ m. (
        m.magic,
        (
          m.format_version,
          (
            m.device_uuid,
            (m.generation, (m.object_size, (m.object_count, (m.leaf_span, (m.leaves, m.garbage))))),
          ),
        ),
      ))
      (λ (a, (b, (c, (d, (e, (f, (g, (h, i)))))))). record {
        magic = a;
        format_version = b;
        device_uuid = c;
        generation = d;
        object_size = e;
        object_count = f;
        leaf_span = g;
        leaves = h;
        garbage = i;
      })
      (λ m. refl)

abbrev pub leaf : Codec ManifestTreeLeaf
leaf =
    along
      (couple (many number) (
        couple number
          (couple number (couple number (couple number (couple number (many object)))))))
      (λ m. (
        m.magic,
        (
          m.format_version,
          (m.device_uuid, (m.generation, (m.leaf_index, (m.start_object_id, m.objects)))),
        ),
      ))
      (λ (a, (b, (c, (d, (e, (f, g)))))). record {
        magic = a;
        format_version = b;
        device_uuid = c;
        generation = d;
        leaf_index = e;
        start_object_id = f;
        objects = g;
      })
      (λ m. refl)

abbrev pub is_tree : ManifestEncoding → Bool
is_tree flat_json = false
is_tree tree = true

abbrev pub encoding_of : Bool → ManifestEncoding
encoding_of false = flat_json
encoding_of true = tree

pub encoding_of-is_tree : (e : ManifestEncoding) → encoding_of (is_tree e) ≡ e
encoding_of-is_tree flat_json = refl
encoding_of-is_tree tree = refl

abbrev pub encoding : Codec ManifestEncoding
encoding = along boolean is_tree encoding_of encoding_of-is_tree

abbrev pub superblock : Codec Superblock
superblock =
    along
      (couple (many number) (
        couple number (
          couple number (
            couple number (
              couple number (
                couple number (
                  couple number (
                    couple number (
                      couple (many number) (
                        couple (perhaps number) (
                          couple (perhaps (many number)) (
                            couple (perhaps number) (
                              couple encoding
                                (couple (perhaps number) (couple number number)))))))))))))))
      (λ m. (
        m.magic,
        (
          m.format_version,
          (
            m.device_uuid,
            (
              m.device_size,
              (
                m.logical_sector_size,
                (
                  m.object_size,
                  (
                    m.current_manifest_message_id,
                    (
                      m.manifest_generation,
                      (
                        m.manifest_hash,
                        (
                          m.previous_manifest_message_id,
                          (
                            m.previous_manifest_hash,
                            (
                              m.previous_manifest_generation,
                              (
                                m.manifest_encoding,
                                (m.root_index_message_id, (m.created_at, m.last_commit_at)),
                              ),
                            ),
                          ),
                        ),
                      ),
                    ),
                  ),
                ),
              ),
            ),
          ),
        ),
      ))
      (λ (a, (b, (c, (d, (e, (f, (g, (h, (i, (j, (k, (l, (m, (n, (o, p))))))))))))))). record {
        magic = a;
        format_version = b;
        device_uuid = c;
        device_size = d;
        logical_sector_size = e;
        object_size = f;
        current_manifest_message_id = g;
        manifest_generation = h;
        manifest_hash = i;
        previous_manifest_message_id = j;
        previous_manifest_hash = k;
        previous_manifest_generation = l;
        manifest_encoding = m;
        root_index_message_id = n;
        created_at = o;
        last_commit_at = p;
      })
      (λ m. refl)

abbrev pub read : {A : Type 0} → Option (A × List ℕ) → Result Error A
read none = err json
read (some (a, rest)) = ok a

abbrev pub number_json : ManifestJson
number_json = record {
  encode_json = λ m. manifest.put m [];
  decode_json = λ bytes. read (manifest.get bytes);
}

pub number_json-IsLossless : IsLossless number_json
number_json-IsLossless = record { decode_json-encode_json = λ m. ap read (manifest.got m []) }

abbrev pub number_tree_json : TreeJson
number_tree_json = record {
  encode_leaf = λ m. leaf.put m [];
  decode_leaf = λ bytes. read (leaf.get bytes);
  encode_root = λ m. root.put m [];
  decode_root = λ bytes. read (root.get bytes);
}

pub number_tree_json-ReadsBack : ReadsBack number_tree_json
number_tree_json-ReadsBack = record {
  decode_leaf-encode_leaf = λ m. ap read (leaf.got m []);
  decode_root-encode_root = λ m. ap read (root.got m []);
}

abbrev pub number_serde : SuperblockJson
number_serde = record {
  to_string_pretty = λ b. superblock.put b [];
  from_str = λ text. read (superblock.get text);
}

pub number_serde-ReadsBack : Superblock.ReadsBack number_serde
number_serde-ReadsBack = record { from_str-to_string_pretty = λ b. ap read (superblock.got b []) }
