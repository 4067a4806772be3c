-- ===== src/Util.antt =====
-- core/husarnet/util.h, util.cpp, fstring.h and string_view.h.
pub mod Pack
pub mod View
pub mod Text
pub mod Decimal
