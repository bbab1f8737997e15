-- ===== src/Net/DataStream/Pieces.antt =====
-- What a stream is for: the history of batches, cut in runs of consecutive batches that became
-- frames and packets, with the batches that were lost between them.
use stabilizer.Prelude.{
  ℕ, ◌+◌, ◌≡◌, refl, arith, ap, sym, ◌∙◌, subst, List, [], ◌∷◌, ◌++◌, Option, none, some, length,
  u8, u32, le16, le32, append_assoc, length-append,
}
use stabilizer.Net.DataStream.{Cell, StreamFrame, FrameGenerator, magic}
use stabilizer.Net.DataStream.Frames.{Collects, cells, concat}

-- The packet of a run of batches.
abbrev pub packet : ℕ → ℕ → List (List ℕ) → List Cell
packet format first bs =
    cells (le16 magic ++ ((format ∷ u8 (length bs) ∷ []) ++ (le32 first ++ concat bs)))

-- Batches that were lost, and the run that was kept after them.
pub record Piece : Type 0 where
  pub lost : List (List ℕ)
  pub kept : List (List ℕ)

abbrev pub flat : List Piece → List (List ℕ)
flat [] = []
flat (p ∷ ps) = p.lost ++ (p.kept ++ flat ps)

-- The packets of the pieces, of which the first batch has number `n`.
abbrev pub packets : ℕ → ℕ → List Piece → List (List Cell)
packets format n [] = []
packets format n (p ∷ ps) =
    packet format (u32 (n + length p.lost)) p.kept
    ∷ packets format (n + length p.lost + length p.kept) ps

-- The frames hold the runs of the pieces.
abbrev pub Holds : ℕ → ℕ → List Piece → List StreamFrame → Type 0
Holds format n [] [] = Unit
Holds format n (p ∷ ps) (frame ∷ frames) =
    Collects format (u32 (n + length p.lost)) p.kept frame
    × Holds format (n + length p.lost + length p.kept) ps frames
Holds format n _ _ = ⊥

-- The frame that is being filled holds the last of these batches.
abbrev pub Ongoing : ℕ → ℕ → List (List ℕ) → Option StreamFrame → Type 0
Ongoing format n batches none = Unit
Ongoing format n batches (some frame) =
    (lost : List (List ℕ)) × (kept : List (List ℕ)) × (batches ≡ lost ++ kept)
    × Collects format (u32 (n + length lost)) kept frame

-- The batches from number `start` on are those of the frames, in order, then those since.
pub record Tracks (format start : ℕ) (batches : List (List ℕ)) (g : FrameGenerator)
    (frames : List StreamFrame) : Type 0 where
  pub pieces : List Piece
  pub rest : List (List ℕ)
  pub whole : batches ≡ flat pieces ++ rest
  pub frames_hold : Holds format start pieces frames
  pub ongoing : Ongoing format (start + length (flat pieces)) rest g.current_frame
  pub numbered : g.sequence_number ≡ u32 (start + length batches)
  pub formatted : g.format ≡ format

pub flat-append : (ps qs : List Piece) → flat (ps ++ qs) ≡ flat ps ++ flat qs
flat-append [] qs = refl
flat-append (p ∷ ps) qs = simp (flat-append ps qs, append_assoc)

length-flat :
    (p : Piece) (ps : List Piece)
    → length (flat (p ∷ ps)) ≡ length p.lost + length p.kept + length (flat ps)
length-flat p ps =
    omega (arith, length-append p.lost (p.kept ++ flat ps), length-append p.kept (flat ps))

-- One piece more at the end.
pub packets-append :
    (format n : ℕ) (ps : List Piece) (p : Piece)
    → packets format n (ps ++ p ∷ [])
      ≡ packets format n ps
        ++ packet format (u32 (n + length (flat ps) + length p.lost)) p.kept ∷ []
packets-append format n [] p =
    ap (λ (k : ℕ). packet format (u32 (k + length p.lost)) p.kept ∷ []) (omega arith)
packets-append format n (q ∷ ps) p = ap (◌∷◌ (packet format (u32 (n + length q.lost)) q.kept)) (
    packets-append format (n + length q.lost + length q.kept) ps p
    ∙ ap
        (λ (k : ℕ).
          packets format (n + length q.lost + length q.kept) ps
          ++ packet format (u32 (k + length p.lost)) p.kept ∷ [])
        (omega (arith, length-flat q ps)))

pub Holds-append :
    (format n : ℕ) (ps : List Piece) (frames : List StreamFrame) (p : Piece) (frame : StreamFrame)
    → Holds format n ps frames
    → Collects format (u32 (n + length (flat ps) + length p.lost)) p.kept frame
    → Holds format n (ps ++ p ∷ []) (frames ++ frame ∷ [])
Holds-append format n [] [] p frame h c =
    (subst (λ k. Collects format (u32 (k + length p.lost)) p.kept frame) (omega arith) c, tt)
Holds-append format n [] (f ∷ frames) p frame h c = absurd h
Holds-append format n (q ∷ ps) [] p frame h c = absurd h
Holds-append format n (q ∷ ps) (f ∷ frames) p frame (c', h) c = (
  c',
  Holds-append format (n + length q.lost + length q.kept) ps frames p frame h (
      subst (λ k. Collects format (u32 (k + length p.lost)) p.kept frame)
        (omega (arith, length-flat q ps)) c),
)

-- The oldest frame, with the batches that it and those before it account for.
pub record Taken (format start : ℕ) (batches : List (List ℕ)) (g : FrameGenerator)
    (frame : StreamFrame) (frames : List StreamFrame) : Type 0 where
  pub piece : Piece
  pub tail : List (List ℕ)
  pub whole : batches ≡ piece.lost ++ (piece.kept ++ tail)
  pub collects : Collects format (u32 (start + length piece.lost)) piece.kept frame
  pub tracks : Tracks format (start + length piece.lost + length piece.kept) tail g frames

take_piece :
    (format start : ℕ) (batches : List (List ℕ)) (g : FrameGenerator) (frame : StreamFrame)
    (frames : List StreamFrame) (pieces : List Piece) (rest : List (List ℕ))
    → batches ≡ flat pieces ++ rest
    → Holds format start pieces (frame ∷ frames)
    → Ongoing format (start + length (flat pieces)) rest g.current_frame
    → g.sequence_number ≡ u32 (start + length batches)
    → g.format ≡ format
    → Taken format start batches g frame frames
take_piece format start batches g frame frames [] rest whole holds ongoing number formatted =
    absurd holds
take_piece format start batches g frame frames (p ∷ ps) rest whole (c, holds) ongoing number
      formatted =
    record {
      piece = p;
      tail = flat ps ++ rest;
      whole =
          whole
          ∙ (append_assoc p.lost (p.kept ++ flat ps) rest
              ∙ ap (◌++◌ p.lost) (append_assoc p.kept (flat ps) rest));
      collects = c;
      tracks = record {
        pieces = ps;
        rest = rest;
        whole = refl;
        frames_hold = holds;
        ongoing =
            subst (λ n. Ongoing format n rest g.current_frame) (omega (arith, length-flat p ps))
              ongoing;
        numbered = omega (
          arith,
          number,
          ap length whole,
          length-flat p ps,
          length-append (flat (p ∷ ps)) rest,
          length-append (flat ps) rest,
        );
        formatted = formatted;
      };
    }

pub take_oldest :
    {format start : ℕ} {batches : List (List ℕ)} {g : FrameGenerator} {frame : StreamFrame}
    {frames : List StreamFrame}
    → Tracks format start batches g (frame ∷ frames)
    → Taken format start batches g frame frames
take_oldest {format} {start} {batches} {g} {frame} {frames} t =
    take_piece format start batches g frame frames t.pieces t.rest t.whole t.frames_hold t.ongoing
      t.numbered t.formatted

before_current :
    (format start : ℕ) (front rest : List (List ℕ)) (current : Option StreamFrame)
    → Ongoing format (start + length front) rest current
    → Ongoing format start (front ++ rest) current
before_current format start front rest none h = tt
before_current format start front rest (some frame) (lost, kept, e, c) = (
  front ++ lost,
  kept,
  ap (◌++◌ front) e ∙ sym (append_assoc front lost kept),
  subst (λ n. Collects format (u32 n) kept frame) (omega (arith, length-append front lost)) c,
)

-- The queue is emptied, and its batches are lost.
pub lose_queued :
    {format start : ℕ} {batches : List (List ℕ)} {g : FrameGenerator} {frames : List StreamFrame}
    → Tracks format start batches g frames
    → Tracks format start batches g []
lose_queued {format} {start} {batches} {g} t = record {
  pieces = [];
  rest = flat t.pieces ++ t.rest;
  whole = t.whole;
  frames_hold = tt;
  ongoing =
      subst (λ n. Ongoing format n (flat t.pieces ++ t.rest) g.current_frame) (omega arith)
        (before_current format start (flat t.pieces) t.rest g.current_frame t.ongoing);
  numbered = t.numbered;
  formatted = t.formatted;
}
