-- ===== src/Storage/Node/Pieces.antt =====
-- Buffers as pieces one behind the other: what a copy into a buffer or a read from it does to the pieces.
use sqldb.Base.{
  ℕ, zero, suc, ◌+◌, ◌<◌, ◌≡◌, refl, sym, ap, ◌∙◌, ◌/◌, ◌^◌, List, [], ◌∷◌, ◌++◌, append-nil,
  append_assoc, length, length-append, take, drop, Bytes, arith,
}
use sqldb.Storage.Kv.{le_bytes, le_read}
use sqldb.Storage.Node.Buffer.{poke, peek, read_word}

abbrev pub join : List Bytes → Bytes
join [] = []
join (x ∷ xs) = x ++ join xs

abbrev pub size : List Bytes → ℕ
size [] = 0
size (x ∷ xs) = length x + size xs

drop_behind : (xs ys : Bytes) (pos p : ℕ) → pos ≡ length xs + p → drop pos (xs ++ ys) ≡ drop p ys
drop_behind [] ys pos p e = ap (λ i. drop i ys) (e ∙ omega arith)
drop_behind (x ∷ xs) ys zero p e = absurd (omega arith)
drop_behind (x ∷ xs) ys (suc pos) p e = drop_behind xs ys pos p (omega arith)

pub take_front : (xs ys : Bytes) (n : ℕ) → n ≡ length xs → take n (xs ++ ys) ≡ xs
take_front [] ys zero e = refl
take_front [] ys (suc n) e = absurd (omega arith)
take_front (x ∷ xs) ys zero e = absurd (omega arith)
take_front (x ∷ xs) ys (suc n) e = ap (λ l. x ∷ l) (take_front xs ys n (omega arith))

-- Behind some pieces and the front of another.
pub drop_in :
    (ls : List Bytes) (x y : Bytes) (rs : List Bytes) (pos : ℕ)
    → pos ≡ size ls + length x
    → drop pos (join (ls ++ (x ++ y) ∷ rs)) ≡ y ++ join rs
drop_in [] x y rs pos at =
    ap (drop pos) (append_assoc x y (join rs)) ∙ drop_behind x (y ++ join rs) pos 0 (omega arith)
drop_in (l ∷ ls) x y rs pos at =
    drop_behind l (join (ls ++ (x ++ y) ∷ rs)) pos (size ls + length x) (omega arith)
    ∙ drop_in ls x y rs (size ls + length x) refl

poke_behind :
    (xs ys bs : Bytes) (pos p : ℕ)
    → pos ≡ length xs + p
    → poke (xs ++ ys) pos bs ≡ xs ++ poke ys p bs
unfolding poke
poke_behind [] ys bs pos p e =
    ap (λ i. take i ys ++ (bs ++ drop (i + length bs) ys)) (e ∙ omega arith)
poke_behind (x ∷ xs) ys bs zero p e = absurd (omega arith)
poke_behind (x ∷ xs) ys bs (suc pos) p e =
    let further : suc pos + length bs ≡ suc (pos + length bs) = omega arith in
    rw further (ap (λ l. x ∷ l) (poke_behind xs ys bs pos p (omega arith)))

pub poke_in :
    (ls : List Bytes) (x old y : Bytes) (rs : List Bytes) (bs : Bytes) (pos : ℕ)
    → pos ≡ size ls + length x
    → length old ≡ length bs
    → poke (join (ls ++ (x ++ (old ++ y)) ∷ rs)) pos bs ≡ join (ls ++ (x ++ (bs ++ y)) ∷ rs)
unfolding poke
poke_in [] x old y rs bs pos at same =
    ap (λ l. poke l pos bs) (append_assoc x (old ++ y) (join rs))
    ∙ poke_behind x ((old ++ y) ++ join rs) bs pos 0 (omega arith)
    ∙ ap (λ l. x ++ (bs ++ l))
        (ap (drop (0 + length bs)) (append_assoc old y (join rs))
          ∙ drop_behind old (y ++ join rs) (0 + length bs) 0 (omega arith))
    ∙ ap (λ l. x ++ l) (sym (append_assoc bs y (join rs)))
    ∙ sym (append_assoc x (bs ++ y) (join rs))
poke_in (l ∷ ls) x old y rs bs pos at same =
    poke_behind l (join (ls ++ (x ++ (old ++ y)) ∷ rs)) bs pos (size ls + length x) (omega arith)
    ∙ ap (λ r. l ++ r) (poke_in ls x old y rs bs (size ls + length x) refl same)

-- A whole piece.
pub poke_piece :
    (ls : List Bytes) (old : Bytes) (rs : List Bytes) (bs : Bytes) (pos : ℕ)
    → pos ≡ size ls
    → length old ≡ length bs
    → poke (join (ls ++ old ∷ rs)) pos bs ≡ join (ls ++ bs ∷ rs)
poke_piece ls old rs bs pos at same =
    ap (λ m. poke (join (ls ++ m ∷ rs)) pos bs) (sym (append-nil old))
    ∙ poke_in ls [] old [] rs bs pos (omega arith) same
    ∙ ap (λ m. join (ls ++ m ∷ rs)) (append-nil bs)

pub length-join : (ls : List Bytes) → length (join ls) ≡ size ls
length-join [] = refl
length-join (l ∷ ls) = omega (arith, length-append l (join ls), length-join ls)

pub length-le_bytes : (n v : ℕ) → length (le_bytes n v) ≡ n
unfolding le_bytes
length-le_bytes zero v = refl
length-le_bytes (suc n) v = ap suc (length-le_bytes n (v / 256))

-- A word that stands behind some pieces and the front of another.
pub read_2 :
    (ls : List Bytes) (x y : Bytes) (rs : List Bytes) (v pos : ℕ)
    → pos ≡ size ls + length x
    → v < 2 ^ 16
    → read_word 2 (join (ls ++ (x ++ (le_bytes 2 v ++ y)) ∷ rs)) pos ≡ v
unfolding read_word le_read le_bytes
read_2 ls x y rs v pos at small = rw (drop_in ls x (le_bytes 2 v ++ y) rs pos at) (omega arith)

pub read_8 :
    (ls : List Bytes) (x y : Bytes) (rs : List Bytes) (v pos : ℕ)
    → pos ≡ size ls + length x
    → v < 2 ^ 64
    → read_word 8 (join (ls ++ (x ++ (le_bytes 8 v ++ y)) ∷ rs)) pos ≡ v
unfolding read_word le_read le_bytes
read_8 ls x y rs v pos at small = rw (drop_in ls x (le_bytes 8 v ++ y) rs pos at) (omega arith)

pub peek_in :
    (ls : List Bytes) (x y z : Bytes) (rs : List Bytes) (pos n : ℕ)
    → pos ≡ size ls + length x
    → n ≡ length y
    → peek (join (ls ++ (x ++ (y ++ z)) ∷ rs)) pos n ≡ y
unfolding peek
peek_in ls x y z rs pos n at long =
    ap (take n) (drop_in ls x (y ++ z) rs pos at ∙ append_assoc y z (join rs))
    ∙ take_front y (z ++ join rs) n long
