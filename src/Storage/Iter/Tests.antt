-- ===== src/Storage/Iter/Tests.antt =====
-- A tree of two levels, and a seek in it.
use sqldb.Base.{◌≡◌, refl, [], ◌∷◌, Bytes, lex, ok, ◌>>=◌, ◌==◌, if◌then◌else◌, arith}
use sqldb.Storage.SortedMap.{Pairs}
use sqldb.Storage.Cmp.{cmp_lt}
use sqldb.Storage.Visits.{matching, in_direction}
use sqldb.Storage.Node.{Entry, BNode, offset, link, bnode_leaf, bnode_node}
use sqldb.Storage.PageManager.Growing.{Store, store_pages}
use sqldb.Storage.Tree.Get.{IsTree, tree}
use sqldb.Storage.Tree.Shape.{Child, Holds}
use sqldb.Storage.Iter.{seek}
use sqldb.Storage.Iter.Range.{seen, seek-matching}

abbrev leaf_entry : Bytes → Bytes → Entry
leaf_entry key val = record { ptr = 0; key = key; val = val }

abbrev low_leaf : BNode
low_leaf = record {
  btype = bnode_leaf;
  nkeys = 2;
  entries = leaf_entry [] [] ∷ leaf_entry (3 ∷ []) (4 ∷ []) ∷ [];
}

abbrev high_leaf : BNode
high_leaf = record {
  btype = bnode_leaf;
  nkeys = 2;
  entries = leaf_entry (5 ∷ []) (9 ∷ []) ∷ leaf_entry (7 ∷ []) (8 ∷ []) ∷ [];
}

abbrev top_node : BNode
top_node = record { btype = bnode_node; nkeys = 2; entries = link 1 [] ∷ link 2 (5 ∷ []) ∷ [] }

abbrev three_pages : Store
three_pages = record {
  last = 3;
  page = λ p. if p == 1 then ok low_leaf else if p == 2 then ok high_leaf else ok top_node;
}

abbrev three_pairs : Pairs
three_pairs = (3 ∷ [], 4 ∷ []) ∷ (5 ∷ [], 9 ∷ []) ∷ (7 ∷ [], 8 ∷ []) ∷ []

low_child :
    Child store_pages
      (Holds store_pages 0 three_pages)
      three_pages
      (link 1 [])
      (([], []) ∷ (3 ∷ [], 4 ∷ []) ∷ [])
unfolding offset
low_child = record {
  node = low_leaf;
  val = [];
  rest = (3 ∷ [], 4 ∷ []) ∷ [];
  starts = refl;
  bare = refl;
  alive = (omega arith, omega arith);
  stored = refl;
  complete = record {
    counted = refl;
    fitting = ((omega arith, omega arith), ((omega arith, omega arith), tt));
  };
  small = omega arith;
  holds = (refl, refl);
}

high_child :
    Child store_pages
      (Holds store_pages 0 three_pages)
      three_pages
      (link 2 (5 ∷ []))
      ((5 ∷ [], 9 ∷ []) ∷ (7 ∷ [], 8 ∷ []) ∷ [])
unfolding offset
high_child = record {
  node = high_leaf;
  val = 9 ∷ [];
  rest = (7 ∷ [], 8 ∷ []) ∷ [];
  starts = refl;
  bare = refl;
  alive = (omega arith, omega arith);
  stored = refl;
  complete = record {
    counted = refl;
    fitting = ((omega arith, omega arith), ((omega arith, omega arith), tt));
  };
  small = omega arith;
  holds = (refl, refl);
}

three_pages-IsTree : IsTree store_pages 1 3 three_pages (([], []) ∷ three_pairs)
unfolding offset lex
three_pages-IsTree =
    tree 1 3 three_pages top_node [] three_pairs (omega arith) (omega arith, omega arith) refl
      (record {
        counted = refl;
        fitting = ((omega arith, omega arith), ((omega arith, omega arith), tt));
      })
      (omega arith) ((refl, (refl, (refl, tt))), ((refl, (refl, tt)), ((refl, tt), (tt, tt))))
      (
        refl,
        (
          ([], []) ∷ (3 ∷ [], 4 ∷ []) ∷ [],
          (5 ∷ [], 9 ∷ []) ∷ (7 ∷ [], 8 ∷ []) ∷ [],
          low_child,
          ((5 ∷ [], 9 ∷ []) ∷ (7 ∷ [], 8 ∷ []) ∷ [], [], high_child, refl, refl),
          refl,
        ),
      )

seek-matching_example :
    (seek store_pages 2 3 (5 ∷ []) cmp_lt three_pages >>= λ iter.
    seen store_pages cmp_lt 5 three_pages iter)
    ≡ ok (in_direction cmp_lt (matching cmp_lt (5 ∷ []) three_pairs))
seek-matching_example =
    seek-matching store_pages 1 2 3 three_pages cmp_lt (5 ∷ []) [] three_pairs 5 (omega arith)
      three_pages-IsTree (omega arith)
