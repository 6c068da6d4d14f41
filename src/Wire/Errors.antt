-- ===== src/Wire/Errors.antt =====
-- The MySQL error code of an engine error's text (`mysql_error_kind` in src/server/mysql_wire.rs). A message is
-- the list of its bytes; the error kinds are those that this function returns.
use my_sqweel.Prelude.{
  text, starts_with, ◌+◌, Text, List, [], ◌∷◌, Bool, ◌&&◌, ◌||◌, map, any, all, leb, nat_eq,
  if◌then◌else◌,
}

unfoldable pub to_ascii_lowercase : Text → Text
to_ascii_lowercase = map (λ c. if leb b'A' c && leb c b'Z' then c + 32 else c)

-- `message.contains(needle)`.
unfoldable pub has_text : Text → Text → Bool
has_text [] needle = starts_with needle []
has_text (c ∷ s) needle = starts_with needle (c ∷ s) || has_text s needle

pub data ErrorKind : Type 0 where
  er_alter_operation_not_supported er_alter_operation_not_supported_reason : ErrorKind
  er_bad_combination_of_window_frame_bound_specs er_bad_db_error er_bad_field_error : ErrorKind
  er_bad_null_error er_bad_table_error er_cant_drop_field_or_key : ErrorKind
  er_cant_execute_in_read_only_transaction er_check_constraint_violated : ErrorKind
  er_collation_charset_mismatch er_conflicting_declarations er_data_too_long : ErrorKind
  er_datetime_function_overflow er_dbaccess_denied_error er_dup_entry er_dup_fieldname : ErrorKind
  er_dup_keyname er_field_specified_twice er_illegal_ha er_illegal_value_for_type : ErrorKind
  er_invalid_group_func_use er_key_does_not_exits er_lock_deadlock er_lock_wait_timeout : ErrorKind
  er_no_db_error er_no_default_for_field er_no_referenced_row_2 er_no_such_table : ErrorKind
  er_nonuniq_table er_not_supported_yet er_parse_error er_partition_mgmt_on_nonpartitioned :
      ErrorKind
  er_row_is_referenced_2 er_sp_wrong_no_of_args er_specific_access_denied_error : ErrorKind
  er_subquery_no_1_row er_table_exists_error er_table_not_locked er_tableaccess_denied_error :
      ErrorKind
  er_tablespace_missing er_too_big_precision er_too_long_key er_too_many_tables : ErrorKind
  er_truncated_wrong_value er_truncated_wrong_value_for_field er_unknown_alter_algorithm : ErrorKind
  er_unknown_alter_lock er_unknown_table er_unsupported_engine : ErrorKind
  er_update_without_key_in_safe_mode er_view_check_failed er_view_multiupdate : ErrorKind
  er_warn_data_out_of_range er_wrong_arguments er_wrong_group_field er_wrong_name_for_index :
      ErrorKind
  er_wrong_sub_key er_wrong_table_name er_wrong_usage er_wrong_value : ErrorKind
  er_wrong_value_count_on_row : ErrorKind

-- The tests of the chain in order: a rule holds if all texts of one of its alternatives occur.
unfoldable pub error_rules : List (List (List Text) × ErrorKind)
error_rules =
    ((text "transaction snapshot changed" ∷ []) ∷ [], er_lock_deadlock)
    ∷ (
      (text "cannot execute statement in a read only transaction" ∷ []) ∷ [],
      er_cant_execute_in_read_only_transaction,
    )
    ∷ ((text "lock wait timeout" ∷ []) ∷ [], er_lock_wait_timeout)
    ∷ (
      (text "administrative command denied" ∷ [])
          ∷ (text "requires database administration privileges" ∷ [])
          ∷ [],
      er_specific_access_denied_error,
    )
    ∷ ((text "command denied" ∷ []) ∷ [], er_tableaccess_denied_error)
    ∷ ((text "access denied" ∷ []) ∷ [], er_dbaccess_denied_error)
    ∷ ((text "unknown database" ∷ []) ∷ [], er_bad_db_error)
    ∷ ((text "already exists" ∷ []) ∷ [], er_table_exists_error)
    ∷ ((text "too many tables" ∷ []) ∷ [], er_too_many_tables)
    ∷ ((text "view multiupdate" ∷ []) ∷ [], er_view_multiupdate)
    ∷ ((text "view check option" ∷ []) ∷ [], er_view_check_failed)
    ∷ ((text "doesn't exist in table" ∷ []) ∷ [], er_key_does_not_exits)
    ∷ ((text "unknown table: alias" ∷ []) ∷ [], er_unknown_table)
    ∷ ((text "ambiguous column" ∷ []) ∷ [], er_wrong_group_field)
    ∷ ((text "unknown column: isnew" ∷ []) ∷ [], er_wrong_group_field)
    ∷ ((text "bad table" ∷ []) ∷ [], er_bad_table_error)
    ∷ ((text "no database selected" ∷ []) ∷ [], er_no_db_error)
    ∷ ((text "table not locked" ∷ []) ∷ [], er_table_not_locked)
    ∷ ((text "unknown table" ∷ []) ∷ (text "missing table" ∷ []) ∷ [], er_no_such_table)
    ∷ ((text "incorrect table name" ∷ []) ∷ [], er_wrong_table_name)
    ∷ ((text "unknown column" ∷ []) ∷ [], er_bad_field_error)
    ∷ ((text "not unique table/alias" ∷ []) ∷ [], er_nonuniq_table)
    ∷ ((text "subquery returns more than 1 row" ∷ []) ∷ [], er_subquery_no_1_row)
    ∷ ((text "field specified twice" ∷ []) ∷ [], er_field_specified_twice)
    ∷ ((text "specified twice" ∷ []) ∷ [], er_field_specified_twice)
    ∷ ((text "duplicate column" ∷ []) ∷ [], er_dup_fieldname)
    ∷ ((text "can't drop field or key" ∷ []) ∷ [], er_cant_drop_field_or_key)
    ∷ ((text "duplicate key name" ∷ []) ∷ [], er_dup_keyname)
    ∷ ((text "incorrect index name" ∷ []) ∷ [], er_wrong_name_for_index)
    ∷ ((text "invalid index name" ∷ []) ∷ [], er_parse_error)
    ∷ ((text "cannot discard temporary table" ∷ []) ∷ [], er_not_supported_yet)
    ∷ ((text "tablespace missing" ∷ []) ∷ [], er_tablespace_missing)
    ∷ ((text "table storage engine doesn't support" ∷ []) ∷ [], er_illegal_ha)
    ∷ ((text "spatial indexes can't be primary or unique indexes" ∷ []) ∷ [], er_wrong_usage)
    ∷ ((text "unsupported action on generated column" ∷ []) ∷ [], er_not_supported_yet)
    ∷ (
      (text "partition management on nonpartitioned table" ∷ []) ∷ [],
      er_partition_mgmt_on_nonpartitioned,
    )
    ∷ ((text "conflicting character set declarations" ∷ []) ∷ [], er_conflicting_declarations)
    ∷ ((text "collation charset mismatch" ∷ []) ∷ [], er_collation_charset_mismatch)
    ∷ ((text "table definition has changed" ∷ []) ∷ [], er_illegal_ha)
    ∷ ((text "incorrect prefix key" ∷ []) ∷ [], er_wrong_sub_key)
    ∷ ((text "specified key was too long" ∷ []) ∷ [], er_too_long_key)
    ∷ ((text "unknown alter algorithm" ∷ []) ∷ [], er_unknown_alter_algorithm)
    ∷ ((text "unknown alter lock" ∷ []) ∷ [], er_unknown_alter_lock)
    ∷ ((text "unsupported storage engine" ∷ []) ∷ [], er_unsupported_engine)
    ∷ (
      (text "alter operation not supported reason" ∷ []) ∷ [],
      er_alter_operation_not_supported_reason,
    )
    ∷ ((text "alter operation not supported" ∷ []) ∷ [], er_alter_operation_not_supported)
    ∷ (
      (text "primary key conflict" ∷ [])
          ∷ (text "unique constraint violation" ∷ [])
          ∷ (text "duplicate entry" ∷ [])
          ∷ [],
      er_dup_entry,
    )
    ∷ ((text "cannot be null" ∷ []) ∷ [], er_bad_null_error)
    ∷ ((text "does not have a default" ∷ []) ∷ [], er_no_default_for_field)
    ∷ ((text "column count doesn't match" ∷ []) ∷ [], er_wrong_value_count_on_row)
    ∷ ((text "referenced row" ∷ []) ∷ [], er_row_is_referenced_2)
    ∷ ((text "check constraint violation" ∷ []) ∷ [], er_check_constraint_violated)
    ∷ ((text "foreign key constraint fails" ∷ []) ∷ [], er_no_referenced_row_2)
    ∷ ((text "invalid group function use" ∷ []) ∷ [], er_invalid_group_func_use)
    ∷ ((text "select options cannot be combined" ∷ []) ∷ [], er_wrong_usage)
    ∷ ((text "incorrect usage of or replace and if not exists" ∷ []) ∷ [], er_wrong_usage)
    ∷ (
      (text "window frame bound specifications" ∷ []) ∷ [],
      er_bad_combination_of_window_frame_bound_specs,
    )
    ∷ ((text "too few arguments" ∷ []) ∷ [], er_sp_wrong_no_of_args)
    ∷ ((text "too big precision" ∷ []) ∷ [], er_too_big_precision)
    ∷ (
      (text "not a valid usize" ∷ [])
          ∷ (text "not a valid unsigned" ∷ [])
          ∷ (text "not valid usize" ∷ [])
          ∷ [],
      er_wrong_arguments,
    )
    ∷ ((text "data too long" ∷ []) ∷ [], er_data_too_long)
    ∷ ((text "out of range" ∷ []) ∷ [], er_warn_data_out_of_range)
    ∷ (
      (text "incorrect integer" ∷ []) ∷ (text "incorrect decimal" ∷ []) ∷ [],
      er_truncated_wrong_value_for_field,
    )
    ∷ (
      (text "datetime function overflow" ∷ [])
          ∷ (text "datetime function" ∷ text "field overflow" ∷ [])
          ∷ [],
      er_datetime_function_overflow,
    )
    ∷ ((text "cannot convert string" ∷ []) ∷ [], er_truncated_wrong_value)
    ∷ ((text "invalid float" ∷ []) ∷ [], er_illegal_value_for_type)
    ∷ ((text "wrong value" ∷ []) ∷ [], er_wrong_value)
    ∷ ((text "safe update mode" ∷ []) ∷ [], er_update_without_key_in_safe_mode)
    ∷ (
      (text "incorrect date" ∷ [])
          ∷ (text "incorrect datetime" ∷ [])
          ∷ (text "incorrect time" ∷ [])
          ∷ [],
      er_truncated_wrong_value,
    )
    ∷ (
      (text "not supported" ∷ []) ∷ (text "unsupported session setting" ∷ []) ∷ [],
      er_not_supported_yet,
    )
    ∷ ((text "sql parser error" ∷ []) ∷ (text "parse" ∷ []) ∷ [], er_parse_error)
    ∷ []

unfoldable pub rule_holds : Text → List (List Text) → Bool
rule_holds message alternatives = any (λ texts. all (has_text message) texts) alternatives

unfoldable pub first_rule : Text → List (List (List Text) × ErrorKind) → ErrorKind
first_rule message [] = er_not_supported_yet
first_rule message ((alternatives, kind) ∷ rules) =
    if rule_holds message alternatives then kind else first_rule message rules

unfoldable pub mysql_error_kind : Text → ErrorKind
mysql_error_kind message = first_rule (to_ascii_lowercase message) error_rules
