-- ===== src/Types.antt =====
-- dashboard/src/types.ts: the records and unions that the dashboard's parts exchange. A field that
-- may be `null` or left out is an `Option`; a union of string literals is a data type, with the
-- literal of each constructor. Numbers are natural, and a quotient is kept as a `Ratio`.
pub mod Unions
pub mod Records
