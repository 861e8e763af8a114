-- ===== src/Storage/Node/Parts.antt =====
-- The buffer of a node with the free room that the next entry takes set apart, and the layout with one more entry.
use sqldb.Base.{
  ℕ, ◌+◌, ◌≡◌, sym, ap, ◌∙◌, List, [], ◌∷◌, ◌++◌, append-nil, append_assoc, length, Bytes, arith,
}
use sqldb.Storage.Kv.{le_bytes}
use sqldb.Storage.Node.{Entry, kv_size, offset}
use sqldb.Storage.Node.Pieces.{join}
use sqldb.Storage.Node.Layout.{ptrs, offsets, kv, kvs, pieces, before_room}

-- The parts of a buffer, each with the piece that an append writes and what is free behind it.
abbrev pub parts : (t c : ℕ) (ps p fp os o fo ds k v key val fd : Bytes) → List Bytes
parts t c ps p fp os o fo ds k v key val fd =
    le_bytes 2 t ∷ le_bytes 2 c ∷ ps ∷ p ∷ fp ∷ os ∷ o ∷ fo ∷ ds ∷ k ∷ v ∷ key ∷ val ∷ fd ∷ []

pub gather :
    (t c : ℕ) (ps p fp os o fo ds k v key val fd : Bytes)
    → join (parts t c ps p fp os o fo ds k v key val fd)
      ≡ join (
          pieces t c (ps ++ (p ++ fp)) (os ++ (o ++ fo)) (ds ++ (k ++ (v ++ (key ++ (val ++ fd))))))
gather t c ps p fp os o fo ds k v key val fd =
    let behind = ds ++ (k ++ (v ++ (key ++ (val ++ (fd ++ []))))) in
    ap (λ m. le_bytes 2 t ++ (le_bytes 2 c ++ m))
      (sym (before_room ps p fp (os ++ (o ++ (fo ++ behind))))
        ∙ ap (λ m. (ps ++ (p ++ fp)) ++ m)
            (sym (before_room os o fo behind)
              ∙ ap (λ m. (os ++ (o ++ fo)) ++ m)
                  (ap (λ m. ds ++ (k ++ (v ++ (key ++ (val ++ m))))) (append-nil fd)
                    ∙ sym (append-nil (ds ++ (k ++ (v ++ (key ++ (val ++ fd)))))))))

pub ptrs-append : (es : List Entry) (e : Entry) → ptrs (es ++ e ∷ []) ≡ ptrs es ++ le_bytes 8 e.ptr
unfolding ptrs
ptrs-append [] e = append-nil (le_bytes 8 e.ptr)
ptrs-append (f ∷ es) e =
    ap (λ m. le_bytes 8 f.ptr ++ m) (ptrs-append es e)
    ∙ sym (append_assoc (le_bytes 8 f.ptr) (ptrs es) (le_bytes 8 e.ptr))

pub kvs-append : (es : List Entry) (e : Entry) → kvs (es ++ e ∷ []) ≡ kvs es ++ kv e
unfolding kvs
kvs-append [] e = append-nil (kv e)
kvs-append (f ∷ es) e =
    ap (λ m. kv f ++ m) (kvs-append es e) ∙ sym (append_assoc (kv f) (kvs es) (kv e))

pub offsets-append :
    (start : ℕ) (es : List Entry) (e : Entry)
    → offsets start (es ++ e ∷ []) ≡ offsets start es ++ le_bytes 2 (start + offset es + kv_size e)
unfolding offsets offset
offsets-append start [] e =
    append-nil (le_bytes 2 (start + kv_size e)) ∙ ap (le_bytes 2) (omega arith)
offsets-append start (f ∷ es) e =
    ap (λ m. le_bytes 2 (start + kv_size f) ++ m) (offsets-append (start + kv_size f) es e)
    ∙ sym (
        append_assoc (le_bytes 2 (start + kv_size f)) (offsets (start + kv_size f) es)
          (le_bytes 2 (start + kv_size f + offset es + kv_size e)))
    ∙ ap (λ v. (le_bytes 2 (start + kv_size f) ++ offsets (start + kv_size f) es) ++ le_bytes 2 v)
        (omega arith)

pub kv-room :
    (e : Entry) (room : Bytes)
    → kv e ++ room
      ≡ le_bytes 2 (length e.key) ++ (le_bytes 2 (length e.val) ++ (e.key ++ (e.val ++ room)))
unfolding le_bytes
kv-room e room =
    ap (λ m. le_bytes 2 (length e.key) ++ (le_bytes 2 (length e.val) ++ m))
      (append_assoc e.key e.val room)
