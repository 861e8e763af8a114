-- ===== src/Storage/Node/Write.antt =====
-- The copies that node_append_kv makes, one behind the other, in such a buffer.
use sqldb.Base.{
  ℕ, ◌+◌, ◌-◌, ◌*◌, ◌%◌, ◌^◌, ◌<◌, ◌≤◌, ◌≡◌, refl, sym, ap, ◌∙◌, List, [], ◌∷◌, ◌++◌, append_assoc,
  length, length-append, take_all, leb, true, Bytes, ok, arith,
}
use sqldb.Storage.Kv.{le_bytes}
use sqldb.Storage.Node.{Entry, BNode, kv_size, offset, btree_max_key_size, btree_max_val_size}
use sqldb.Storage.Node.Build.{Fits, offset-append}
use sqldb.Storage.Node.Buffer
use sqldb.Storage.Node.Pieces.{join, size, length-join, length-le_bytes, poke_piece}
use sqldb.Storage.Node.Layout.{
  Layout, ptrs, offsets, kv, kvs, pieces, length-ptrs, length-offsets, length-kvs, nkeys-pieces,
  get_offset-pieces,
}
use sqldb.Storage.Node.Parts.{parts, gather, ptrs-append, kvs-append, offsets-append, kv-room}

module _ (t c : ℕ) (es : List Entry) (count_small : c < 2 ^ 16) where
  -- A buffer in which the entry `length es` is being written.
  abbrev pub at_work : (p fp o fo k v key val fd : Bytes) → Bytes
  at_work p fp o fo k v key val fd =
      join (parts t c (ptrs es) p fp (offsets 0 es) o fo (kvs es) k v key val fd)

  nkeys-at_work :
      (p fp o fo k v key val fd : Bytes) → Buffer.nkeys (at_work p fp o fo k v key val fd) ≡ c
  nkeys-at_work p fp o fo k v key val fd =
      ap Buffer.nkeys (gather t c (ptrs es) p fp (offsets 0 es) o fo (kvs es) k v key val fd)
      ∙ nkeys-pieces t c (ptrs es ++ (p ++ fp)) (offsets 0 es ++ (o ++ fo))
          (kvs es ++ (k ++ (v ++ (key ++ (val ++ fd))))) count_small

  get_offset-at_work :
      (p fp o fo k v key val fd : Bytes)
      → length es * 8 + (length p + length fp) ≡ c * 8
      → offset es < 2 ^ 16
      → Buffer.get_offset (at_work p fp o fo k v key val fd) (length es) ≡ offset es
  get_offset-at_work p fp o fo k v key val fd room bounded =
      ap (λ r. Buffer.get_offset r (length es))
        (gather t c (ptrs es) p fp (offsets 0 es) o fo (kvs es) k v key val fd)
      ∙ get_offset-pieces t c (ptrs es ++ (p ++ fp)) (o ++ fo)
          (kvs es ++ (k ++ (v ++ (key ++ (val ++ fd))))) es (length es) count_small
          (omega
            (arith, room, length-append (ptrs es) (p ++ fp), length-append p fp, length-ptrs es))
          bounded (omega arith)
      ∙ ap offset (take_all (length es) es (omega arith))

  module _ (e : Entry) (p fp o fo k v key val fd : Bytes) (p_long : length p ≡ 8)
      (o_long : length o ≡ 2) (k_long : length k ≡ 2) (v_long : length v ≡ 2)
      (key_long : length key ≡ length e.key) (val_long : length val ≡ length e.val)
      (room_ptrs : length es * 8 + (length p + length fp) ≡ c * 8)
      (room_offsets : length es * 2 + (length o + length fo) ≡ c * 2)
      (data_small : offset es + kv_size e < 2 ^ 16) where
    abbrev pos : ℕ
    pos = 4 + c * 8 + c * 2 + offset es

    abbrev ptr : Bytes
    ptr = le_bytes 8 e.ptr

    abbrev k_size : Bytes
    k_size = le_bytes 2 (length e.key)

    abbrev v_size : Bytes
    v_size = le_bytes 2 (length e.val)

    pointed :
        Buffer.set_ptr (length es) e.ptr (at_work p fp o fo k v key val fd)
        ≡ at_work ptr fp o fo k v key val fd
    unfolding Buffer.write_word
    pointed =
        poke_piece (le_bytes 2 t ∷ le_bytes 2 c ∷ ptrs es ∷ []) p
          (fp ∷ offsets 0 es ∷ o ∷ fo ∷ kvs es ∷ k ∷ v ∷ key ∷ val ∷ fd ∷ []) ptr
          (4 + length es * 8)
          (omega (arith, length-le_bytes 2 t, length-le_bytes 2 c, length-ptrs es))
          (p_long ∙ sym (length-le_bytes 8 e.ptr))

    kv_pos-pointed : Buffer.kv_pos (at_work ptr fp o fo k v key val fd) (length es) ≡ pos
    kv_pos-pointed =
        rw
          (
            nkeys-at_work ptr fp o fo k v key val fd,
            get_offset-at_work ptr fp o fo k v key val fd
                (omega (arith, room_ptrs, p_long, length-le_bytes 8 e.ptr)) (omega arith),
          )
          refl

    abbrev before_data : List Bytes
    before_data =
        le_bytes 2 t ∷ le_bytes 2 c ∷ ptrs es ∷ ptr ∷ fp ∷ offsets 0 es ∷ o ∷ fo ∷ kvs es ∷ []

    before_size : size before_data ≡ pos
    before_size = omega (
      arith,
      length-le_bytes 2 t,
      length-le_bytes 2 c,
      length-ptrs es,
      length-le_bytes 8 e.ptr,
      p_long,
      o_long,
      length-offsets 0 es,
      length-kvs es,
      room_ptrs,
      room_offsets,
    )

    filled :
        Buffer.put_kv pos e.key e.val (at_work ptr fp o fo k v key val fd)
        ≡ at_work ptr fp o fo k_size v_size e.key e.val fd
    unfolding Buffer.put_kv Buffer.write_word
    filled =
        ap
          (λ r.
            Buffer.poke (Buffer.poke (Buffer.poke r (pos + 2) v_size) (pos + 4) e.key)
              (pos + 4 + length e.key) e.val)
          (poke_piece before_data k (v ∷ key ∷ val ∷ fd ∷ []) k_size pos (sym before_size)
            (k_long ∙ sym (length-le_bytes 2 (length e.key))))
        ∙ ap (λ r. Buffer.poke (Buffer.poke r (pos + 4) e.key) (pos + 4 + length e.key) e.val)
            (poke_piece (before_data ++ k_size ∷ []) v (key ∷ val ∷ fd ∷ []) v_size (pos + 2)
              (omega (
                arith,
                before_size,
                length-le_bytes 2 (length e.key),
                length-le_bytes 2 (length e.val),
              ))
              (v_long ∙ sym (length-le_bytes 2 (length e.val))))
        ∙ ap (λ r. Buffer.poke r (pos + 4 + length e.key) e.val)
            (poke_piece (before_data ++ k_size ∷ v_size ∷ []) key (val ∷ fd ∷ []) e.key (pos + 4)
              (omega (
                arith,
                before_size,
                length-le_bytes 2 (length e.key),
                length-le_bytes 2 (length e.val),
              ))
              key_long)
        ∙ poke_piece (before_data ++ k_size ∷ v_size ∷ e.key ∷ []) val (fd ∷ []) e.val
            (pos + 4 + length e.key)
            (omega (
              arith,
              before_size,
              length-le_bytes 2 (length e.key),
              length-le_bytes 2 (length e.val),
            ))
            val_long

    ended :
        (x : ℕ)
        → Buffer.set_offset (length es + 1) x (at_work ptr fp o fo k_size v_size e.key e.val fd)
          ≡ at_work ptr fp (le_bytes 2 x) fo k_size v_size e.key e.val fd
    unfolding Buffer.write_word
    ended x = rw (nkeys-at_work ptr fp o fo k_size v_size e.key e.val fd) (
        poke_piece (le_bytes 2 t ∷ le_bytes 2 c ∷ ptrs es ∷ ptr ∷ fp ∷ offsets 0 es ∷ []) o
          (fo ∷ kvs es ∷ k_size ∷ v_size ∷ e.key ∷ e.val ∷ fd ∷ []) (le_bytes 2 x)
          (4 + c * 8 + (length es + 1 - 1) * 2)
          (omega (
            arith,
            length-le_bytes 2 t,
            length-le_bytes 2 c,
            length-ptrs es,
            length-le_bytes 8 e.ptr,
            p_long,
            length-offsets 0 es,
            room_ptrs,
          ))
          (o_long ∙ sym (length-le_bytes 2 x)))

    abbrev end_of : Bytes
    end_of = le_bytes 2 (0 + offset es + kv_size e)

    abbrev pub grown : Bytes
    grown = at_work ptr fp end_of fo k_size v_size e.key e.val fd

    sizes :
        (o' : Bytes)
        → length o' ≡ 2
        → (k' v' key' val' : Bytes) → length k' ≡ 2
        → length v' ≡ 2
        → length key' ≡ length e.key
        → length val' ≡ length e.val
        → length (at_work ptr fp o' fo k' v' key' val' fd)
          ≡ length (at_work p fp o fo k v key val fd)
    sizes o' ho k' v' key' val' hk hv hkey hval =
        length-join (parts t c (ptrs es) ptr fp (offsets 0 es) o' fo (kvs es) k' v' key' val' fd)
        ∙ omega (
          arith,
          p_long,
          length-le_bytes 8 e.ptr,
          o_long,
          ho,
          k_long,
          hk,
          v_long,
          hv,
          key_long,
          hkey,
          val_long,
          hval,
        )
        ∙ sym (length-join (parts t c (ptrs es) p fp (offsets 0 es) o fo (kvs es) k v key val fd))

    pub grown_size : length grown ≡ length (at_work p fp o fo k v key val fd)
    grown_size =
        sizes end_of (length-le_bytes 2 (0 + offset es + kv_size e)) k_size v_size e.key e.val
          (length-le_bytes 2 (length e.key)) (length-le_bytes 2 (length e.val)) refl refl

    pub written :
        Fits e
        → pos + kv_size e ≤ length (at_work p fp o fo k v key val fd)
        → Buffer.node_append_kv (length es) e.ptr e.key e.val (at_work p fp o fo k v key val fd)
          ≡ ok grown
    unfolding Buffer.node_append_kv
    written fits inside =
        let key_fits : leb (length e.key) btree_max_key_size ≡ true = ground (arith, fits.0) in
        let val_fits : leb (length e.val) btree_max_val_size ≡ true = ground (arith, fits.1) in
        let same = sizes o o_long k v key val k_long v_long key_long val_long in
        let here : leb (pos + 4 + length e.key + length e.val)
              (length (at_work ptr fp o fo k v key val fd))
            ≡ true =
          ground (arith, inside, same) in
        let number : (offset es + 4 + length e.key + length e.val) % 2 ^ 16
            ≡ 0 + offset es + kv_size e =
          omega (arith, data_small) in
        rw
          (
            pointed,
            kv_pos-pointed,
            key_fits,
            val_fits,
            here,
            filled,
            get_offset-at_work ptr fp o fo k_size v_size e.key e.val fd
                (omega (arith, room_ptrs, p_long, length-le_bytes 8 e.ptr))
                (omega (arith, data_small)),
            number,
          )
          (ap ok (ended (0 + offset es + kv_size e)))

    abbrev longer : BNode
    longer = record { btype = t; nkeys = c; entries = es ++ e ∷ [] }

    ptrs_grown : ptrs es ++ (ptr ++ fp) ≡ ptrs (es ++ e ∷ []) ++ fp
    ptrs_grown = sym (ap (λ m. m ++ fp) (ptrs-append es e) ∙ append_assoc (ptrs es) ptr fp)

    offsets_grown : offsets 0 es ++ (end_of ++ fo) ≡ offsets 0 (es ++ e ∷ []) ++ fo
    offsets_grown =
        sym (ap (λ m. m ++ fo) (offsets-append 0 es e) ∙ append_assoc (offsets 0 es) end_of fo)

    kvs_grown :
        kvs es ++ (k_size ++ (v_size ++ (e.key ++ (e.val ++ fd)))) ≡ kvs (es ++ e ∷ []) ++ fd
    kvs_grown = sym (
        ap (λ m. m ++ fd) (kvs-append es e)
        ∙ append_assoc (kvs es) (kv e) fd
        ∙ ap (λ m. kvs es ++ m) (kv-room e fd))

    end_small : offset (es ++ e ∷ []) < 2 ^ 16
    unfolding offset
    end_small = omega (arith, offset-append es (e ∷ []), data_small)

    pub kept : t < 2 ^ 16 → Layout grown longer
    kept type_small = record {
      free_ptrs = fp;
      free_offsets = fo;
      free_kvs = fd;
      whole =
          gather t c (ptrs es) ptr fp (offsets 0 es) end_of fo (kvs es) k_size v_size e.key e.val fd
          ∙ ap
              (λ m. join (
                pieces t c m (offsets 0 es ++ (end_of ++ fo))
                  (kvs es ++ (k_size ++ (v_size ++ (e.key ++ (e.val ++ fd)))))))
              ptrs_grown
          ∙ ap
              (λ m. join (
                pieces t c (ptrs (es ++ e ∷ []) ++ fp) m
                  (kvs es ++ (k_size ++ (v_size ++ (e.key ++ (e.val ++ fd)))))))
              offsets_grown
          ∙ ap
              (λ m.
                join (pieces t c (ptrs (es ++ e ∷ []) ++ fp) (offsets 0 (es ++ e ∷ []) ++ fo) m))
              kvs_grown;
      ptrs_long = omega (arith, length-append es (e ∷ []), room_ptrs, p_long);
      offsets_long = omega (arith, length-append es (e ∷ []), room_offsets, o_long);
      type_small = type_small;
      count_small = count_small;
      data_small = end_small;
    }
