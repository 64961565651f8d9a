-- ===== src/Availability/Subtract.antt =====
-- `subtract` and `clip` keep the normal form and cover what their names say.
use nautobot_maps.Prelude.{suc, ◌<◌, ◌≡◌, refl, not, ◌&&◌, List, [], ◌∷◌, ltb, leb, arith}
use nautobot_maps.Availability.Interval.{
  Time, Interval, union, cut_piece, cut_pieces, cut_holes, cut_all, subtract, clip,
}
use nautobot_maps.Availability.Cover.{
  holds, covers, NormalFrom, IsNormal, EndsBy, covers-append, NormalFrom-weaken, NormalFrom-append,
}
use nautobot_maps.Availability.Union.{covers-union, union-IsNormal}

covers-cut_piece :
    (t : Time) (h p : Interval) → covers t (cut_piece h p) ≡ (holds t p && not (holds t h))
unfolding covers cut_piece
covers-cut_piece t h p = ground arith

covers-cut_pieces :
    (t : Time) (h : Interval) (l : List Interval)
    → covers t (cut_pieces h l) ≡ (covers t l && not (holds t h))
unfolding covers cut_pieces
covers-cut_pieces t h [] = refl
covers-cut_pieces t h (p ∷ l) = ground (
  arith,
  covers-append t (cut_piece h p) (cut_pieces h l),
  covers-cut_piece t h p,
  covers-cut_pieces t h l,
)

covers-cut_holes :
    (t : Time) (holes l : List Interval)
    → covers t (cut_holes holes l) ≡ (covers t l && not (covers t holes))
unfolding covers cut_holes
covers-cut_holes t [] l = ground arith
covers-cut_holes t (h ∷ holes) l =
    ground (arith, covers-cut_holes t holes (cut_pieces h l), covers-cut_pieces t h l)

covers-cut_all :
    (t : Time) (holes l : List Interval)
    → covers t (cut_all holes l) ≡ (covers t l && not (covers t holes))
unfolding covers cut_all
covers-cut_all t holes [] = refl
covers-cut_all t holes (i ∷ l) = ground (
  arith,
  covers-append t (cut_holes holes (i ∷ [])) (cut_all holes l),
  covers-cut_holes t holes (i ∷ []),
  covers-cut_all t holes l,
)

-- `subtract` covers the instants of the intervals that no hole covers, and no others.
pub covers-subtract :
    (t : Time) (l holes : List Interval)
    → covers t (subtract l holes) ≡ (covers t l && not (covers t holes))
unfolding subtract
covers-subtract t l holes =
    ground (arith, covers-cut_all t (union holes) (union l), covers-union t l, covers-union t holes)

-- Normal, from `b`, and over by `c`.
abbrev Fits : Time → Time → List Interval → Type 0
Fits b c l = NormalFrom b l × EndsBy c l

cut_pieces-Fits :
    (b c : Time) (h : Interval) (l : List Interval)
    → h.0 < h.1
    → Fits b c l
    → Fits b c (cut_pieces h l)
unfolding cut_pieces
cut_pieces-Fits b c h [] k f = (tt, tt)
cut_pieces-Fits b c h (p ∷ l) k f = ground (
  arith,
  cut_pieces-Fits (suc p.1) c h l k (f.0.2, f.1.1),
  NormalFrom-weaken b (suc p.1) (cut_pieces h l),
  NormalFrom-weaken (suc h.0) (suc p.1) (cut_pieces h l),
)

cut_holes-Fits :
    (a b c : Time) (holes l : List Interval)
    → NormalFrom a holes
    → Fits b c l
    → Fits b c (cut_holes holes l)
unfolding cut_holes
cut_holes-Fits a b c [] l n f = f
cut_holes-Fits a b c (h ∷ holes) l n f =
    cut_holes-Fits (suc h.1) b c holes (cut_pieces h l) n.2 (cut_pieces-Fits b c h l n.1 f)

cut_all-NormalFrom :
    (a b : Time) (holes l : List Interval)
    → NormalFrom a holes
    → NormalFrom b l
    → NormalFrom b (cut_all holes l)
unfolding cut_all
cut_all-NormalFrom a b holes [] n m = tt
cut_all-NormalFrom a b holes (i ∷ l) n m =
    let f : Fits b i.1 (cut_holes holes (i ∷ [])) =
      cut_holes-Fits a b i.1 holes (i ∷ []) n ((m.0, m.1, tt), (omega arith, tt)) in
    NormalFrom-append b i.1 (cut_holes holes (i ∷ [])) (cut_all holes l) (omega arith) f.0 f.1
      (cut_all-NormalFrom a (suc i.1) holes l n m.2)

-- The pieces that `subtract` leaves are in order, and no two touch or overlap.
pub subtract-IsNormal : (l holes : List Interval) → IsNormal (subtract l holes)
unfolding subtract
subtract-IsNormal l holes =
    cut_all-NormalFrom 0 0 (union holes) (union l) (union-IsNormal holes) (union-IsNormal l)

-- `clip` covers the covered instants from `start` on and before `end`, and no others.
pub covers-clip :
    (t start end : Time) (l : List Interval)
    → covers t (clip l start end) ≡ (covers t l && (leb start t && ltb t end))
unfolding covers clip
covers-clip t start end [] = refl
covers-clip t start end (i ∷ l) = ground (arith, covers-clip t start end l)
