-- ===== src/Defender/Collect/Follow.antt =====
-- A log that only grows is read once, byte for byte; a new file is read whole.
use k3df.Base.{ℕ, ◌≡◌, refl, ap, true, some, List, [], ◌∷◌, ◌++◌, length, length-append, arith}
use k3df.Defender.Collect.{Runtime, readable, rotate, drop, follow, other_inode}

-- The calls at a file `inode` that holds `content` at first and then grows by the given pieces.
abbrev pub reads : ℕ → List ℕ → List (List ℕ) → Runtime → List (List ℕ)
reads inode content [] r = []
reads inode content (piece ∷ pieces) r =
    let now = content ++ piece in
    let (r', text) = follow (readable inode (length now) now) r in text ∷ reads inode now pieces r'

abbrev pub at : ℕ → List ℕ → Runtime
at inode content = record { access_log_offset = length content; access_log_inode = some inode }

drop-append : (xs ys : List ℕ) → drop (length xs) (xs ++ ys) ≡ ys
drop-append [] ys = refl
drop-append (x ∷ xs) ys = drop-append xs ys

rotate_grown :
    (inode : ℕ) (content piece : List ℕ)
    → rotate inode (length (content ++ piece)) (at inode content) ≡ at inode content
unfolding rotate
rotate_grown inode content piece = ground (arith, length-append content piece)

follow_grown :
    (inode : ℕ) (content piece : List ℕ)
    → follow (readable inode (length (content ++ piece)) (content ++ piece)) (at inode content)
      ≡ (at inode (content ++ piece), piece)
unfolding follow
follow_grown inode content piece =
    rw (rotate_grown inode content piece, drop-append content piece, length-append content piece)
      refl

-- If a log file that has been read to its end grows by some pieces, one before each call, and
-- keeps its inode, then the calls read exactly those pieces.
pub reads-pieces :
    (inode : ℕ) (content : List ℕ) (pieces : List (List ℕ))
    → reads inode content pieces (at inode content) ≡ pieces
reads-pieces inode content [] = refl
reads-pieces inode content (piece ∷ pieces) =
    rw (follow_grown inode content piece)
      (ap (◌∷◌ piece) (reads-pieces inode (content ++ piece) pieces))

follow_other :
    (inode : ℕ) (content : List ℕ) (r : Runtime)
    → other_inode r.access_log_inode inode ≡ true
    → follow (readable inode (length content) content) r ≡ (at inode content, content)
unfolding follow rotate
follow_other inode content r h = rw h (
    ap (λ n. (record { access_log_offset = n; access_log_inode = some inode }, content))
      (omega arith))

-- If the log file is a new one, with another inode than the one kept, then whatever offset is
-- kept the calls read exactly the pieces by which it grows from empty.
pub reads_other :
    (inode : ℕ) (pieces : List (List ℕ)) (r : Runtime)
    → other_inode r.access_log_inode inode ≡ true
    → reads inode [] pieces r ≡ pieces
reads_other inode [] r h = refl
reads_other inode (piece ∷ pieces) r h =
    rw (follow_other inode piece r h) (ap (◌∷◌ piece) (reads-pieces inode piece pieces))
