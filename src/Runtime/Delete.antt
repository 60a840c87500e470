-- ===== src/Runtime/Delete.antt =====
-- What `table delete` does before the tables change (src/cli.py): the parsing of its arguments, and
-- the unloading of the ConstIDs that it affects.
pub mod Safe
use xkernel.Base.{ℕ, zero, suc, Bool, true, false, List, [], ◌∷◌, Option, some, none}
use xkernel.Base.{if◌then◌else◌, ◌==◌, list_eq, nat_eq, contains}
use xkernel.Base.Text.{Text, text}
use xkernel.Tables.{File}
use xkernel.Tables.Query.{Filter, collect_constids_to_delete}
use xkernel.Runtime.{Host, World, Run, ◌>>=◌, ◌>>◌, pure, gets}
use xkernel.Runtime.Stop.{unload_active_constids}

-- The flag whose value is the argument that follows. A flag at the end has none, and is passed over.
pub data Awaited : Type 0 where
  no_value const_id_value val_value status_value : Awaited

unfoldable pub awaited_by : Text → Awaited
awaited_by arg =
    if arg == text "--const-id"
    then const_id_value
    else if arg == text "--val"
    then val_value
    else if arg == text "--status"
    then status_value
    else no_value

unfoldable pub parse_filter : Awaited → List Text → Filter → Filter
parse_filter w [] q = q
parse_filter no_value (arg ∷ args) q = parse_filter (awaited_by arg) args q
parse_filter const_id_value (arg ∷ args) q =
    parse_filter no_value args (record q { const_id = some arg })
parse_filter val_value (arg ∷ args) q = parse_filter no_value args (record q { val = some arg })
parse_filter status_value (arg ∷ args) q =
    parse_filter no_value args (record q { status = some arg })

abbrev pub no_filter : Filter
no_filter = record { const_id = none; val = none; status = none }

-- The set is empty too where the command is no `delete`.
unfoldable pub affected_by : List Text → File → List Text
affected_by [] scope = []
affected_by (command ∷ args) scope =
    if command == text "delete"
    then collect_constids_to_delete (parse_filter no_value args no_filter)
        (contains args (text "--all")) scope
    else []

module _ ⦃host : Host⦄ where
  unfoldable pub unload_some : List Text → Run Unit
  unload_some [] = pure tt
  unload_some (cid ∷ cids) = do unload_active_constids (cid ∷ cids); pure tt

  -- `cmd_table` up to the call of src/table.py.
  unfoldable pub before_delete : List Text → Run Unit
  before_delete args = do
    affected ← gets (λ w. affected_by args w.tables.scope)
    unload_some affected
