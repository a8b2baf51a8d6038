-- ===== src/Vision/Centers.antt =====
-- app/recognition/detector/scrfd.py: the anchors of `SCRFDetector` and the cache of their centers.
use face_recognition.Prelude.{
  ℕ, zero, suc, ◌+◌, ◌*◌, ◌/◌, ◌≤◌, ◌≡◌, ◌↔◌, inl, inr, Bool, true, false, ◌&&◌, none, some, List,
  [], ◌∷◌, ◌++◌, length, ltb, leb, nat_beq, nat_beq_iff, Eq, Option-cases, arith, if◌then◌else◌,
}
use face_recognition.Prelude.Dict.{Dict, lookup, insert, lookup-insert}
use face_recognition.Prelude.Int.{pos}
use face_recognition.Prelude.Float.{Float}

-- `fmc`, `use_kps` and `num_anchors`; the strides are always 8, 16, 32.
pub record AnchorConfig : Type 0 where
  pub fmc : ℕ
  pub use_kps : Bool
  pub num_anchors : ℕ

unfoldable pub init_anchor_config : ℕ → AnchorConfig
init_anchor_config num_outputs =
    if nat_beq num_outputs 6
    then record { fmc = 3; use_kps = false; num_anchors = 2 }
    else if nat_beq num_outputs 9
    then record { fmc = 3; use_kps = true; num_anchors = 2 }
    else record {
      fmc = if nat_beq num_outputs 15 then num_outputs / 3 else num_outputs / 2;
      use_kps = leb 9 num_outputs;
      num_anchors = 1;
    }

-- `(height, width, stride)`
pub record CenterKey : Type 0 where
  pub height : ℕ
  pub width : ℕ
  pub stride : ℕ

unfoldable pub key_beq : CenterKey → CenterKey → Bool
key_beq a b = nat_beq a.height b.height && (nat_beq a.width b.width && nat_beq a.stride b.stride)

pub key_beq_iff : (a b : CenterKey) → (key_beq a b ≡ true) ↔ (a ≡ b)
unfolding key_beq
key_beq_iff a b = ground (
  arith,
  nat_beq_iff a.height b.height,
  nat_beq_iff a.width b.width,
  nat_beq_iff a.stride b.stride,
)

instance abbrev pub key_eq : Eq CenterKey
key_eq = record { equals = key_beq; equals_iff = key_beq_iff }

module _ {F : Type 0} (fl : Float F) where
  abbrev pub repeat : {A : Type 0} → ℕ → A → List A
  repeat zero a = []
  repeat (suc n) a = a ∷ repeat n a

  -- The centers of a row of the grid from column x on, each `anchors` times.
  abbrev pub row_centers : ℕ → ℕ → ℕ → ℕ → ℕ → List (F × F)
  row_centers stride anchors y x zero = []
  row_centers stride anchors y x (suc n) =
      repeat anchors (fl.of_int (pos (x * stride)), fl.of_int (pos (y * stride)))
      ++ row_centers stride anchors y (x + 1) n

  abbrev pub grid_centers : ℕ → ℕ → ℕ → ℕ → ℕ → List (F × F)
  grid_centers stride anchors width y zero = []
  grid_centers stride anchors width y (suc n) =
      row_centers stride anchors y 0 width ++ grid_centers stride anchors width (y + 1) n

  -- The anchor centers, row by row.
  unfoldable pub anchor_centers : ℕ → CenterKey → List (F × F)
  anchor_centers anchors k = grid_centers k.stride anchors k.width 0 k.height

  -- `self._center_cache`
  abbrev pub Cache : Type 0
  Cache = Dict CenterKey (List (F × F))

  unfoldable pub cached_centers : ℕ → CenterKey → Cache → List (F × F) × Cache
  cached_centers anchors k cache = elim (lookup k cache) [
    | some centers ↦ (centers, cache)
    | none ↦
        let centers = anchor_centers anchors k in
        (centers, if ltb (length cache) 100 then insert k centers cache else cache)
  ]

  -- Every entry is what the detector would compute, and there are at most 100.
  pub record IsCoherent (anchors : ℕ) (cache : Cache) : Type 0 where
    pub computed :
        (k : CenterKey) (v : List (F × F)) → lookup k cache ≡ some v → v ≡ anchor_centers anchors k
    pub small : length cache ≤ 100

  length-insert :
      (k : CenterKey) (v : List (F × F)) (cache : Cache)
      → length (insert k v cache) ≤ length cache + 1
  unfolding insert
  length-insert k v [] = omega arith
  length-insert k v ((j, w) ∷ cache) = ground (arith, length-insert k v cache)

  -- The cache is transparent: from a coherent cache the centers are the computed ones, and the cache
  -- stays coherent, with at most 100 entries.
  pub cached_centers-anchor_centers :
      (anchors : ℕ) (k : CenterKey) (cache : Cache)
      → IsCoherent anchors cache
      → ((cached_centers anchors k cache).0 ≡ anchor_centers anchors k)
        × IsCoherent anchors (cached_centers anchors k cache).1
  unfolding cached_centers
  cached_centers-anchor_centers anchors k cache h = elim (Option-cases (lookup k cache)) [
    | inl missing ↦ (
      ground arith,
      record {
        computed = λ j v e. ground (
          arith,
          h.computed j v,
          lookup-insert k j (anchor_centers anchors k) cache,
          (key_beq_iff k j).0,
        );
        small = ground (arith, h.small, length-insert k (anchor_centers anchors k) cache);
      },
    )
    | inr (centers, found) ↦ (
      ground (arith, h.computed k centers found),
      record {
        computed = λ j v e. ground (arith, h.computed j v);
        small = ground (arith, h.small);
      },
    )
  ]
