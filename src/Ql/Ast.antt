-- ===== src/Ql/Ast.antt =====
-- include/ql/ql_ast.h and src/ql/ql_ast.cpp.
use sqldb.Base.{
  ℕ, Bool, true, false, ◌&&◌, List, [], ◌∷◌, ◌++◌, ℤ, Bytes, text, if◌then◌else◌, ◌==◌,
}
use sqldb.Catalog.Value.{Value, error, blank, make_int64, make_bytes, value_eq}
use sqldb.Catalog.TableDef.{TableDef}
use sqldb.Catalog.TextForm.Stream.{show_int}
use sqldb.Storage.Kv.Tx.{UpdateMode}

-- The tags, without their QL_ and QL_CMP_; `modulo` is QL_MOD.
pub data QlNodeType : Type 0 where
  uninit i64 str sym star tup : QlNodeType
  ge gt lt le eq ne : QlNodeType
  add sub mul div modulo : QlNodeType
  and or not neg : QlNodeType

mutual
  pub data QlNode : Type 0 where
    node : QlNodeType → Value → QlNodes → QlNode

  -- A node's kids.
  pub data QlNodes : Type 0 where
    nil : QlNodes
    cons : QlNode → QlNodes → QlNodes

abbrev pub tag : QlNode → QlNodeType
tag (node t v kids) = t

abbrev pub payload : QlNode → Value
payload (node t v kids) = v

abbrev pub tag_code : QlNodeType → ℕ
tag_code uninit = 0
tag_code i64 = 1
tag_code str = 2
tag_code sym = 3
tag_code star = 4
tag_code tup = 5
tag_code ge = 6
tag_code gt = 7
tag_code lt = 8
tag_code le = 9
tag_code eq = 10
tag_code ne = 11
tag_code add = 12
tag_code sub = 13
tag_code mul = 14
tag_code div = 15
tag_code modulo = 16
tag_code and = 17
tag_code or = 18
tag_code not = 19
tag_code neg = 20

-- operator== of the tags.
abbrev pub tag_eq : QlNodeType → QlNodeType → Bool
tag_eq s t = tag_code s == tag_code t

-- QLNode::operator==, and that of the vectors of kids.
unfoldable mutual
  pub node_eq : QlNode → QlNode → Bool
  node_eq (node s v ks) (node t w ls) = (tag_eq s t && value_eq v w) && nodes_eq ks ls

  pub nodes_eq : QlNodes → QlNodes → Bool
  nodes_eq nil nil = true
  nodes_eq nil (cons l ls) = false
  nodes_eq (cons k ks) nil = false
  nodes_eq (cons k ks) (cons l ls) = node_eq k l && nodes_eq ks ls

unfoldable pub ql_int64 : ℤ → QlNode
ql_int64 v = node i64 (make_int64 v) nil

unfoldable pub ql_str : Bytes → QlNode
ql_str v = node str (make_bytes v) nil

unfoldable pub ql_sym : Bytes → QlNode
ql_sym name = node sym (make_bytes name) nil

unfoldable pub ql_star : QlNode
ql_star = node star (blank error) nil

unfoldable pub ql_unop : QlNodeType → QlNode → QlNode
ql_unop type kid = node type (blank error) (cons kid nil)

unfoldable pub ql_binop : QlNodeType → QlNode → QlNode → QlNode
ql_binop type lhs rhs = node type (blank error) (cons lhs (cons rhs nil))

unfoldable pub ql_tuple : QlNodes → QlNode
ql_tuple kids = node tup (blank error) kids

unfoldable pub op_name : QlNodeType → Bytes
op_name tup = text "tuple"
op_name ge = text ">="
op_name gt = text ">"
op_name lt = text "<"
op_name le = text "<="
op_name eq = text "="
op_name ne = text "!="
op_name add = text "+"
op_name sub = text "-"
op_name mul = text "*"
op_name div = text "/"
op_name modulo = text "%"
op_name and = text "and"
op_name or = text "or"
op_name not = text "not"
op_name neg = text "neg"
op_name _ = text "?"

-- One round of the loop of quote: what stands for the character between the quotes.
unfoldable pub quote_char : ℕ → Bytes
quote_char c =
    if c == 39
    then 92 ∷ 39 ∷ []
    else if c == 92
    then 92 ∷ 92 ∷ []
    else if c == 10
    then 92 ∷ b'n' ∷ []
    else if c == 9
    then 92 ∷ b't' ∷ []
    else if c == 13
    then 92 ∷ b'r' ∷ []
    else c ∷ []

unfoldable pub quote_chars : Bytes → Bytes
quote_chars [] = []
quote_chars (c ∷ s) = quote_char c ++ quote_chars s

unfoldable pub quote : Bytes → Bytes
quote s = 39 ∷ (quote_chars s ++ (39 ∷ []))

-- to_string on a node whose kids are rendered.
unfoldable pub render : QlNodeType → Value → Bytes → Bytes
render uninit v kids = text "()"
render i64 v kids = show_int v.int64
render str v kids = quote v.str
render sym v kids = v.str
render star v kids = text "*"
render t v kids = b'(' ∷ (op_name t ++ (kids ++ (b')' ∷ [])))

unfoldable mutual
  pub to_string : QlNode → Bytes
  to_string (node t v kids) = render t v (kids_to_string kids)

  -- Each kid behind a space.
  pub kids_to_string : QlNodes → Bytes
  kids_to_string nil = []
  kids_to_string (cons k ks) = b' ' ∷ (to_string k ++ kids_to_string ks)

pub record QlScan : Type 0 where
  pub table : Bytes
  pub key1 : QlNode
  pub key2 : QlNode
  pub filter : QlNode
  pub offset : ℤ
  pub limit : ℤ

pub record QlSelect : Type 0 where
  pub scan : QlScan
  pub names : List Bytes
  pub output : List QlNode

pub record QlInsert : Type 0 where
  pub table : Bytes
  pub mode : UpdateMode
  pub names : List Bytes
  pub values : List (List QlNode)

pub record QlUpdate : Type 0 where
  pub scan : QlScan
  pub names : List Bytes
  pub values : List QlNode

pub record QlDelete : Type 0 where
  pub scan : QlScan

pub record QlCreateTable : Type 0 where
  pub def : TableDef

pub data QlStatement : Type 0 where
  create_table : QlCreateTable → QlStatement
  select : QlSelect → QlStatement
  insert : QlInsert → QlStatement
  update : QlUpdate → QlStatement
  delete : QlDelete → QlStatement
