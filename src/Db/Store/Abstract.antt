-- ===== src/Db/Store/Abstract.antt =====
-- table.cpp against what a table is for its users: a committed value for each key, and a current one.
use mathlib.Core.Path.{fun_ext}
use csf.Base.{◌≡◌, refl, ap, ap₂, ◌∙◌, List, [], ◌∷◌, Option, some, if◌then◌else◌}
use csf.Db.{Text, same_text}
use csf.Db.Store.{set_all, find, Table, table_set, table_get, commit_changes, rollback_changes}
use csf.Db.Store.Pending.{
  IsMap, assign-IsMap, table_get-table_set, table_get-commit_changes, table_get-rollback_changes,
}

-- The specification: two maps from keys to values.
pub record View : Type 0 where
  pub committed : Text → Option Text
  pub current : Text → Option Text

pub data Operation : Type 0 where
  write : Text → Text → Operation
  commit : Operation
  rollback : Operation

abbrev pub spec : Operation → View → View
spec (write key v) m = record {
  committed = m.committed;
  current = λ k. if same_text key k then some v else m.current k;
}
spec commit m = record { committed = m.current; current = m.current }
spec rollback m = record { committed = m.committed; current = m.committed }

abbrev pub spec_all : List Operation → View → View
spec_all [] m = m
spec_all (op ∷ ops) m = spec_all ops (spec op m)

-- The operations of a `Table`.
abbrev pub operate : Operation → Table → Table
operate (write key v) t = table_set key v t
operate commit t = commit_changes t
operate rollback t = rollback_changes t

abbrev pub operate_all : List Operation → Table → Table
operate_all [] t = t
operate_all (op ∷ ops) t = operate_all ops (operate op t)

-- What a table shows of itself.
abbrev pub view : Table → View
view t = record { committed = λ k. find k t.m_data; current = λ k. table_get k t }

-- Each key has one change that waits, as in a `std::map`.
abbrev pub IsTable : Table → Type 0
IsTable t = IsMap t.m_temp_data

operate-IsTable : (op : Operation) (t : Table) → IsTable t → IsTable (operate op t)
unfolding table_set commit_changes rollback_changes
operate-IsTable (write key v) t h = assign-IsMap key v t.m_temp_data h
operate-IsTable commit t h = tt
operate-IsTable rollback t h = tt

abbrev maps : (Text → Option Text) → (Text → Option Text) → View
maps f g = record { committed = f; current = g }

view-operate : (op : Operation) (t : Table) → IsTable t → view (operate op t) ≡ spec op (view t)
unfolding table_set commit_changes rollback_changes set_all
view-operate (write key v) t h =
    ap (maps (λ k. find k t.m_data)) (fun_ext (λ k. table_get-table_set key k v t))
view-operate commit t h =
    ap₂ maps (fun_ext (λ k. (table_get-commit_changes k t h).1))
      (fun_ext (λ k. (table_get-commit_changes k t h).0))
view-operate rollback t h =
    ap (maps (λ k. find k t.m_data)) (fun_ext (λ k. table_get-rollback_changes k [] t))

-- A table, through any sets, commits and rollbacks, shows what the two maps of the specification hold,
-- where each key has one change that waits at the start.
pub view-operate_all :
    (ops : List Operation) (t : Table)
    → IsTable t
    → view (operate_all ops t) ≡ spec_all ops (view t)
view-operate_all [] t h = refl
view-operate_all (op ∷ ops) t h =
    view-operate_all ops (operate op t) (operate-IsTable op t h)
    ∙ ap (spec_all ops) (view-operate op t h)
