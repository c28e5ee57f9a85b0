-- ===== src/Uri/Ports.antt =====
-- The port of mingfwq/uri.rl.cpp that the text of a URI leaves out.
use mingfwq.Prelude.{◌≡◌, ◌↔◌, true, arith}
use mingfwq.Uri.{Uri, is_default_port, get_port}

-- The port is left out of the text exactly if the URI without it is read as having the same port.
pub is_default_port_iff :
    (u : Uri) → (is_default_port u ≡ true) ↔ (get_port u ≡ get_port (record u { port = 0 }))
unfolding is_default_port get_port
is_default_port_iff u = ground arith
