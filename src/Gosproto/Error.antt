-- ===== src/Gosproto/Error.antt =====
-- The error values of gosproto/sproto.go, and those that decode.go and meta.go
-- format in place.
pub data Error : Type 0 where
  non_ptr non_struct nil_value decode unpack malformed : Error
  few_fields unknown_wire bad_tag other_wire other_array no_coders tag_repeated not_struct : Error
