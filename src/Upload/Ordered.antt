-- ===== src/Upload/Ordered.antt =====
-- crates/proton-drive-sdk/src/node/revision.rs: what holds of `write` whatever order its blocks are
-- read, sent and answered in.
use mathlib.Core.List.{append_assoc, append-nil, map-append}
use proton_sdk_rs.Prelude.{
  ℕ, suc, ◌≤◌, ◌<◌, ◌≡◌, ◌≢◌, refl, sym, ap, ◌∙◌, subst, inl, inr, ◌⊎◌, true, false, ◌&&◌, Option,
  none, some, List, [], ◌∷◌, ◌++◌, arith, ltb, map, All, All-map, All-append, length, length-append,
  order_by, All-order_by_inv, Bool-cases,
}
use proton_sdk_rs.Upload.{
  Uploaded, Queued, uploaded_of, finished, failed, Writing, is_running, max_buffered_blocks,
  produce_read, queue_block, produce, new,
}
use proton_sdk_rs.Upload.Blocks.{Bytes, Piece, Crypto, EncryptedBlock, encrypt_block}
use proton_sdk_rs.Upload.Contents.{content, Reads, Split, read_block-Split}
use proton_sdk_rs.Upload.Numbered.{
  IsUpload, Uploads, encrypt_block-number, Uploads-range, Uploads-append,
}
use proton_sdk_rs.Upload.Sorting.{order_by_last}

unfoldable pub joined : List Bytes → Bytes
joined [] = []
joined (p ∷ ps) = p ++ joined ps

pub joined-append : (ps : List Bytes) (p : Bytes) → joined (ps ++ p ∷ []) ≡ joined ps ++ p
unfolding joined
joined-append [] p = append-nil p
joined-append (q ∷ ps) p =
    ap (λ s. q ++ s) (joined-append ps p) ∙ sym (append_assoc q (joined ps) p)

-- Every block is full, but the last may be shorter.
abbrev pub FullButLast : ℕ → List Bytes → Type 0
FullButLast n [] = Unit {0}
FullButLast n (p ∷ []) = (0 < length p) × (length p ≤ n)
FullButLast n (p ∷ q ∷ ps) = (length p ≡ n) × FullButLast n (q ∷ ps)

abbrev pub number : Uploaded → ℕ
number u = u.number

-- The blocks read so far: their uploads are with the results, on the way, or in the channel.
abbrev pub held : Writing → List Uploaded
held w = w.block_results ++ (map uploaded_of w.upload_futures ++ map uploaded_of w.channel)

abbrev pub Cut : ℕ → List Bytes → List Piece → Type 0
Cut n ps stream = All (λ p. length p ≡ n) ps ⊎ ((stream ≡ []) × FullButLast n ps)

module _ (c : Crypto) (target : ℕ) (start : List Piece) where
  -- The blocks read so far, with their uploads in order.
  pub record IsSound (w : Writing) : Type 0 where
    pub blocks : List Bytes
    pub uploads : List Uploaded
    pub made : Uploads c 1 blocks uploads
    pub sorted : order_by number (held w) ≡ uploads
    pub read : w.producer ≢ failed → content start ≡ joined blocks ++ content w.stream
    pub hashed : w.hashed ≡ joined blocks
    pub counted : w.current_block ≡ suc (length blocks)
    pub cut : Cut target blocks w.stream
    pub reads : Reads w.stream
    pub ended : w.producer ≡ finished → w.stream ≡ []
    pub drained : w.producer_done ≡ true → (w.channel ≡ []) × (is_running w.producer ≡ false)

  pub new-IsSound : Reads start → IsSound (new start)
  unfolding new joined
  new-IsSound r = record {
    blocks = [];
    uploads = [];
    made = tt;
    sorted = refl;
    read = λ e. refl;
    hashed = refl;
    counted = refl;
    cut = inl tt;
    reads = r;
    ended = λ e. cc;
    drained = λ e. cc;
  }

  held-channel :
      (w : Writing) (q : Queued)
      → w.block_results
          ++ (map uploaded_of w.upload_futures ++ map uploaded_of (w.channel ++ q ∷ []))
        ≡ held w ++ uploaded_of q ∷ []
  held-channel w q = simp (map-append, append_assoc)

  -- A new block is the last in the order.
  sorted-append :
      (w : Writing) (i : IsSound w) (u : Uploaded)
      → u.number ≡ w.current_block
      → order_by number (held w ++ u ∷ []) ≡ i.uploads ++ u ∷ []
  sorted-append w i u e =
      let below : All (λ v. number v < number u) i.uploads =
        All-map (λ v b. omega (arith, b.1, e, i.counted)) i.uploads
          (Uploads-range c 1 i.blocks i.uploads i.made) in
      let held_below =
        All-order_by_inv (λ v. number v < number u) number (held w)
          (subst (All (λ v. number v < number u)) (sym i.sorted) below) in
      order_by_last number (held w) u held_below
      ∙ ap (λ (us : List Uploaded). us ++ u ∷ []) i.sorted

  no_rest :
      (b : ℕ) (block : Bytes) (stream rest : List Piece)
      → stream ≡ []
      → Split target stream (b ∷ block) rest
      → ⊥
  unfolding content
  no_rest b block stream rest end s =
      let none_left : [] ≡ b ∷ block ++ content rest = ap content (sym end) ∙ s.joined in cc

  Full-append :
      (blocks : List Bytes) (p : Bytes)
      → All (λ q. length q ≡ target) blocks
      → 0 < length p
      → length p ≤ target
      → FullButLast target (blocks ++ p ∷ [])
  Full-append [] p h pos le = (pos, le)
  Full-append (q ∷ []) p h pos le = (h.0, (pos, le))
  Full-append (q ∷ r ∷ blocks) p h pos le = (h.0, Full-append (r ∷ blocks) p h.1 pos le)

  Cut-append :
      (blocks : List Bytes) (stream rest : List Piece) (b : ℕ) (block : Bytes)
      → Cut target blocks stream
      → Split target stream (b ∷ block) rest
      → Cut target (blocks ++ (b ∷ block) ∷ []) rest
  Cut-append blocks stream rest b block (inr (end, most)) s =
      absurd (no_rest b block stream rest end s)
  Cut-append blocks stream rest b block (inl full) s = elim s.full [
    | inl same ↦ inl (All-append (λ q. length q ≡ target) blocks ((b ∷ block) ∷ []) full (same, tt))
    | inr (short, end) ↦ inr (end, Full-append blocks (b ∷ block) full (omega arith) (omega arith))
  ]

  queue_block-IsSound :
      (w : Writing) (i : IsSound w) (b : ℕ) (block : Bytes) (rest : List Piece)
      → is_running w.producer ≡ true
      → Split target w.stream (b ∷ block) rest
      → (made : Option EncryptedBlock) → encrypt_block c w.current_block (b ∷ block) ≡ made
      → IsSound (queue_block c target w (b ∷ block) rest made)
  queue_block-IsSound w i b block rest on s none e = record {
    blocks = i.blocks;
    uploads = i.uploads;
    made = i.made;
    sorted = i.sorted;
    read = λ ok. absurd (ok refl);
    hashed = i.hashed;
    counted = i.counted;
    cut = elim i.cut [
      | inl full ↦ inl full
      | inr (end, most) ↦ absurd (no_rest b block w.stream rest end s)
    ];
    reads = s.reads;
    ended = λ e. cc;
    drained = λ d. ((i.drained d).0, refl);
  }
  queue_block-IsSound w i b block rest on s (some made) e =
      let u = uploaded_of (made, length (b ∷ block)) in
      let numbered = (encrypt_block-number c w.current_block (b ∷ block) made e).0 in
      let upload : IsUpload c w.current_block (b ∷ block) u = record {
        block = made;
        encrypted = e;
        same = refl;
      } in
      record {
        blocks = i.blocks ++ (b ∷ block) ∷ [];
        uploads = i.uploads ++ u ∷ [];
        made =
            Uploads-append c 1 w.current_block i.blocks i.uploads (b ∷ block) u i.made
              (omega (arith, i.counted)) upload;
        sorted =
            ap (order_by number) (held-channel w (made, length (b ∷ block)))
            ∙ sorted-append w i u numbered;
        read = λ ok.
            i.read ok
            ∙ ap (λ t. joined i.blocks ++ t) s.joined
            ∙ sym (append_assoc (joined i.blocks) (b ∷ block) (content rest))
            ∙ ap (λ t. t ++ content rest) (sym (joined-append i.blocks (b ∷ block)));
        hashed = ap (λ t. t ++ b ∷ block) i.hashed ∙ sym (joined-append i.blocks (b ∷ block));
        counted = omega (arith, i.counted, length-append i.blocks ((b ∷ block) ∷ []));
        cut = Cut-append i.blocks w.stream rest b block i.cut s;
        reads = s.reads;
        ended = λ f. ground (arith, on, f);
        drained = λ d. ground (arith, on, i.drained d);
      }

  produce_read-IsSound :
      (w : Writing) (i : IsSound w) (block : Bytes) (rest : List Piece)
      → 0 < target
      → is_running w.producer ≡ true
      → Split target w.stream block rest
      → IsSound (produce_read c target w (some (block, rest)))
  produce_read-IsSound w i (b ∷ block) rest pos on s =
      queue_block-IsSound w i b block rest on s (encrypt_block c w.current_block (b ∷ block)) refl
  produce_read-IsSound w i [] rest pos on s =
      let end : rest ≡ [] = elim s.full [ inl same ↦ absurd (omega arith) | inr (short, e) ↦ e ] in
      record {
        blocks = i.blocks;
        uploads = i.uploads;
        made = i.made;
        sorted = i.sorted;
        read = λ ok. i.read (λ f. ground (arith, on, f)) ∙ ap (λ t. joined i.blocks ++ t) s.joined;
        hashed = i.hashed;
        counted = i.counted;
        cut = elim i.cut [ inl full ↦ inl full | inr (gone, most) ↦ inr (end, most) ];
        reads = s.reads;
        ended = λ e. end;
        drained = λ d. ground (arith, on, i.drained d);
      }

  pub produce-IsSound : (w : Writing) → 0 < target → IsSound w → IsSound (produce c target w)
  unfolding produce
  produce-IsSound w pos i =
      elim (Bool-cases (is_running w.producer && ltb (length w.channel) max_buffered_blocks)) [
        | inl go ↦
            let (block, rest, e, s) = read_block-Split target w.stream i.reads in
            rw (go, e) (produce_read-IsSound w i block rest pos (ground (arith, go)) s)
        | inr stay ↦ rw stay i
      ]
