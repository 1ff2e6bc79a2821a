-- ===== src/Discovery/Listing.antt =====
-- api/v1/discovery.py: what a listing answers while another one is cached.
use grafux_mcp.Base.{nat_eq, string_eq, pair_eq}
use grafux_mcp.Json.{Json}
