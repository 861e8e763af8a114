-- ===== src/Storage/Cmp.antt =====
-- enum CMP of include/storage/btree_iter.h, and cmp_ok of src/storage/btree_iter.cpp.
use sqldb.Base.{Bool, true, false, Bytes, lex, Ordering}

pub data Cmp : Type 0 where
  cmp_ge cmp_gt cmp_lt cmp_le : Cmp

-- The sign of the enumerator: `cmp > 0` walks forward.
abbrev pub is_forward : Cmp → Bool
is_forward cmp_ge = true
is_forward cmp_gt = true
is_forward cmp_lt = false
is_forward cmp_le = false

-- Does an order satisfy the relation?
abbrev pub order_ok : Cmp → Ordering → Bool
order_ok cmp_ge o = elim o [ Ordering.lt ↦ false | _ ↦ true ]
order_ok cmp_gt o = elim o [ Ordering.gt ↦ true | _ ↦ false ]
order_ok cmp_lt o = elim o [ Ordering.lt ↦ true | _ ↦ false ]
order_ok cmp_le o = elim o [ Ordering.gt ↦ false | _ ↦ true ]

unfoldable pub cmp_ok : Bytes → Cmp → Bytes → Bool
cmp_ok key cmp ref = order_ok cmp (lex key ref)
