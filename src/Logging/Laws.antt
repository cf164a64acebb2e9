-- ===== src/Logging/Laws.antt =====
-- What a log line shows under each key.
use cisco_ise_mcp.Prelude.{Option, [], ap, arith, if◌then◌else◌, none, some, ◌∙◌, ◌∷◌, ◌≡◌}
use cisco_ise_mcp.Dict.{Dict, HasKeysApart, insert, lookup}
use cisco_ise_mcp.Dict.Laws.{lookup-insert}
use cisco_ise_mcp.Logging.{
  LogRecord, base_payload, format_payload, is_extra, merge_extras, with_exception,
}
use cisco_ise_mcp.Text.{Text, lit, ◌==◌}
use cisco_ise_mcp.Text.Laws.{==_iff}
use cisco_ise_mcp.Value.{Value, str}

abbrev pub or_entry : Option Value → Option Value → Option Value
or_entry none d = d
or_entry (some v) d = some v

-- The entry that the exception has, the one of the extras, and the one of the message.
abbrev pub exception_entry : Text → Option Text → Option Value
exception_entry k none = none
exception_entry k (some e) = if lit "exc" == k then some (str e) else none

abbrev pub extra_entry : Text → Dict Value → Option Value
extra_entry k attributes = if is_extra k then lookup k attributes else none

lookup-merge_extras :
    (k : Text) (payload attributes : Dict Value)
    → HasKeysApart attributes
    → lookup k (merge_extras payload attributes)
      ≡ or_entry (extra_entry k attributes) (lookup k payload)
unfolding merge_extras lookup
lookup-merge_extras k payload [] h = ground arith
lookup-merge_extras k payload ((j, v) ∷ attributes) h =
    lookup-merge_extras k (if is_extra j then insert j v payload else payload) attributes h.1
    ∙ ground (arith, lookup-insert j k v payload, ==_iff j k, ap is_extra)

-- In a log line a key has the text of the exception, if the record has one and the key is "exc"; else the
-- value of the record's attribute of that name, if there is one, it is none of those that every record has
-- and does not begin with an underscore; else the entry that the line starts with. So an extra of the
-- caller replaces such an entry.
pub format_payload-lookup :
    (r : LogRecord) (k : Text)
    → HasKeysApart r.attributes
    → lookup k (format_payload r)
      ≡ or_entry
          (exception_entry k r.exception_text)
          (or_entry (extra_entry k r.attributes) (lookup k (base_payload r)))
unfolding format_payload
format_payload-lookup r k h = by_exception r.exception_text
  where
    merged : Dict Value
    merged = merge_extras (base_payload r) r.attributes

    by_exception :
        (e : Option Text)
        → lookup k (with_exception e merged)
          ≡ or_entry
              (exception_entry k e)
              (or_entry (extra_entry k r.attributes) (lookup k (base_payload r)))
    by_exception none = lookup-merge_extras k (base_payload r) r.attributes h
    by_exception (some e) =
        lookup-insert (lit "exc") k (str e) merged
        ∙ ground (arith, lookup-merge_extras k (base_payload r) r.attributes h)
