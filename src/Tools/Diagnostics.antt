-- ===== src/Tools/Diagnostics.antt =====
-- core/runtime/diagnostics.py: a hint for an exception. `lower` and `str.split` are the texts of
-- Python's methods, which the caller gives for the exception at hand.
use grafux_mcp.Base.{String, has_text, if◌then◌else◌, ◌^^◌, ◌||◌, nat_eq, string_eq, pair_eq}
use grafux_mcp.Exceptions.{
  Exc, Kind, attribute_error, file_not_found, import_error, key_error, name_error, timeout,
  type_error, value_error,
}

-- str(exc).lower(), and the module's name cut out of an ImportError's message
pub record Message : Type 0 where
  pub lower : String
  pub module_name : String

unfoldable pub suggest_fix : (Kind → String) → (String → Message) → Exc → String
unfolding has_text
suggest_fix class_name read e = hint e.kind
  where
    msg : Message
    msg = read e.message

    by_message : String
    by_message =
        if has_text msg.lower "timeout"
        then "Operation timed out. Check API calls and long-running operations."
        else if has_text msg.lower "connection"
            || has_text msg.lower "refused"
            || has_text msg.lower "unreachable"
            || has_text msg.lower "network"
        then "Network error. Check connectivity and remote service availability."
        else class_name e.kind ^^ ": review the traceback for the failing line."

    hint : Kind → String
    hint import_error = "Missing module — run: pip install " ^^ msg.module_name
    hint name_error = "Name used before definition. Check for typos."
    hint attribute_error = "Attribute/method not found. Check the object type and attribute name."
    hint type_error = "Wrong argument type or count. Check function signatures."
    hint key_error = "Key " ^^ e.message ^^ " missing. Use .get() or verify the key exists."
    hint value_error = "Invalid value. Check input data and expected ranges."
    hint file_not_found = "File not found. Check paths and working directory."
    hint timeout = "Operation timed out. Check API calls and long-running operations."
    hint k = by_message
