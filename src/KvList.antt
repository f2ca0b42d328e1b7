-- ===== src/KvList.antt =====
-- src/kv_list.c and src/include/kv_list.h: pairs of strings packed into one block of memory.
-- A pointer into the block is the bytes from it to the block's end.
pub mod Laws
use pg_clickhouse.Prelude.{
  ℕ, zero, suc, ◌+◌, ◌-◌, Bytes, String, codes, Bool, true, false, List, [], ◌∷◌, ◌++◌, ◌==◌,
  Option, none, some, if◌then◌else◌, length, Result, ok, err, ◌>>=◌,
}
use pg_clickhouse.Nodes.{DefElem}

pub data Allocator : Type 0 where
  guc_malloc malloc palloc : Allocator

pub data KvError : Type 0 where
  unknown_alloc : ℕ → KvError
  out_of_memory : KvError
  -- `strVal` of a NULL argument reads through a null pointer.
  null_argument : KvError

-- `enum kv_pair_alloc`.
abbrev pub kv_pair_guc_malloc : ℕ
kv_pair_guc_malloc = 0

abbrev pub kv_pair_malloc : ℕ
kv_pair_malloc = 1

abbrev pub kv_pair_palloc : ℕ
kv_pair_palloc = 2

-- The allocator that the `switch` selects; before PostgreSQL 16 the first case falls through.
unfoldable pub select_allocator : Bool → ℕ → Result KvError Allocator
select_allocator pg16 allocate =
    if allocate == kv_pair_guc_malloc
    then ok (if pg16 then guc_malloc else malloc)
    else if allocate == kv_pair_malloc
    then ok malloc
    else if allocate == kv_pair_palloc
    then ok palloc
    else err (unknown_alloc allocate)

pub record KvList : Type 0 where
  pub count : ℕ
  pub content : Bytes

-- Both strings of a pair, `strVal(elem->arg)` included.
unfoldable pub pair_bytes : DefElem → Result KvError (Bytes × Bytes)
pair_bytes d = elim d.arg [ none ↦ err null_argument | some v ↦ ok (d.defname, v) ]

-- The first loop: the room for every string and its NUL.
unfoldable pub measure : ℕ → List DefElem → Result KvError ℕ
unfolding pair_bytes
measure kv_size [] = ok kv_size
measure kv_size (d ∷ ds) = do
  (name, value) ← pair_bytes d
  measure (kv_size + (2 + length name + length value)) ds

-- The second loop: each string is copied with its NUL behind what is there.
unfoldable pub fill : Bytes → List DefElem → Result KvError Bytes
unfolding pair_bytes
fill content [] = ok content
fill content (d ∷ ds) = do
  (name, value) ← pair_bytes d
  fill (content ++ (name ++ 0 ∷ []) ++ (value ++ 0 ∷ [])) ds

unfoldable pub list_length : List DefElem → ℕ
list_length [] = 0
list_length (d ∷ ds) = suc (list_length ds)

abbrev pub offsetof_data : ℕ
offsetof_data = 4

module _ (pg16 : Bool) (has_room : Allocator → ℕ → Bool) where
  -- `has_room a n` tells whether allocator `a` delivers `n` bytes.
  unfoldable pub allocate_list : ℕ → ℕ → Result KvError Allocator
  unfolding select_allocator
  allocate_list size allocate = do
    a ← select_allocator pg16 allocate
    if has_room a size then ok a else err out_of_memory

  unfoldable pub new_kv_list_from_pg_list : List DefElem → ℕ → Result KvError KvList
  unfolding measure allocate_list fill list_length
  new_kv_list_from_pg_list list allocate = do
    kv_size ← measure 0 list
    room ← allocate_list (offsetof_data + kv_size) allocate
    content ← fill [] list
    ok (record { count = list_length list; content = content })

-- `name` and `value` are the strings that the pointers point to.
pub record KvIter : Type 0 where
  pub togo : ℕ
  pub next : Bytes
  pub name : Bytes
  pub value : Bytes

unfoldable pub new_kv_iter : Option KvList → KvIter
new_kv_iter none = record { togo = 0; next = []; name = []; value = [] }
new_kv_iter (some ns) = record { togo = ns.count; next = ns.content; name = []; value = [] }

-- The string at a pointer and the pointer behind its NUL; `none` where `strlen` would run past the
-- end of the block.
unfoldable pub c_string : Bytes → Option (Bytes × Bytes)
c_string [] = none
c_string (zero ∷ s) = some ([], s)
c_string (suc c ∷ s) = elim (c_string s) [ none ↦ none | some (t, r) ↦ some (suc c ∷ t, r) ]

-- The strings at `next`, for a pair that is left.
unfoldable pub advance : ℕ → Bytes → Option (Bool × KvIter)
unfolding c_string
advance togo next = elim (c_string next) [
  | none ↦ none
  | some (name, r) ↦ elim (c_string r) [
    | none ↦ none
    | some (value, rest) ↦
        some (true, record { togo = togo; next = rest; name = name; value = value })
  ]
]

unfoldable pub kv_iter_next : KvIter → Option (Bool × KvIter)
unfolding advance
kv_iter_next iter = if iter.togo == 0 then some (false, iter) else advance (iter.togo - 1) iter.next
