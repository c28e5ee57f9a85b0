-- ===== src/Uri/Examples.antt =====
-- The text of a URI, and its port.
use mingfwq.Prelude.{◌≡◌, refl, [], codes}
use mingfwq.Prelude.Decimal.{decimal}
use mingfwq.Uri.{Uri, uri_dump}

abbrev site : Uri
site = record {
  scheme = codes "http";
  userinfo = [];
  host = codes "h";
  path = [];
  query = codes "a=1";
  fragment = [];
  port = 8042;
}

site_text : uri_dump site ≡ codes "http://h:8042/?a=1"
unfolding uri_dump decimal
site_text = refl
