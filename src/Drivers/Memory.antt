-- ===== src/Drivers/Memory.antt =====
-- A service in memory for the tests of src/cpp_mcp/graphdb: its state is its content.
use cpp_mcp.Base.{some, false, refl, codes}
use cpp_mcp.Errors.{ok}
use cpp_mcp.Drivers.Contract.{Content, put_vertex, put_edge, GraphDriver, KeepsContract}
use cpp_mcp.Drivers.Indra.{Client, Driver}
use cpp_mcp.Drivers.Indra.Refines.{Healthy, driver_of, upsert-KeepsContract}

-- The identities are the USRs themselves.
abbrev pub client : Client Content
client = record {
  uuid5 = λ usr. usr;
  get_vertex = λ v c. (c, ok (c.vertices v));
  create_vertex = λ v label c. (put_vertex v c, ok tt);
  set_vertex_property = λ v key value c. (c, ok tt);
  get_edge = λ e c. (c, ok (c.edges e));
  create_edge = λ e c. (put_edge e c, ok tt);
  set_edge_property = λ e key value c. (c, ok tt);
}

abbrev pub same : Content → Content
same c = c

abbrev pub client-Healthy : Healthy client same
client-Healthy = record {
  got_vertex = λ v c. refl;
  created_vertex = λ v label c. (put_vertex v c, refl, refl);
  vertex_property = λ v key value c. (c, refl, refl);
  got_edge = λ e c. refl;
  created_edge = λ e c. (put_edge e c, refl, refl);
  edge_property = λ e key value c. (c, refl, refl);
}

abbrev pub connected : Driver
connected = record { client = some (codes "localhost:27615"); closed = false }

abbrev pub driver : GraphDriver Content
driver = driver_of (λ host. client) connected

pub driver-KeepsContract : KeepsContract driver same (λ usr. usr)
driver-KeepsContract =
    upsert-KeepsContract (λ host. client) same (codes "localhost:27615") connected client-Healthy
      refl

abbrev pub empty : Content
empty = record { vertices = λ v. false; edges = λ e. false }
