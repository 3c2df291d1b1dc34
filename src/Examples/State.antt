-- ===== src/Examples/State.antt =====
-- Initialization, the choice of a NIC, and downloads of integrations/minio-cpp at concrete inputs.
use hip_object.Prelude.{
  ℕ, ◌≡◌, refl, true, false, none, some, List, [], ◌∷◌, ◌==◌, codes, replicate, length, ◌+◌, ◌↔◌,
}
use hip_object.Prelude.Int.{pos}
use hip_object.Topology.Distance.{get_bus_id_distance, int_max}
use hip_object.Topology.Nics.{Devices, NicInfo, closest_of, hca_list_loop, hca_list_includes}
use hip_object.Topology.Nics.Laws.{IsFirstLeast, closest_of-IsFirstLeast}
use hip_object.Topology.Nics.Names.{AnyNames, comma_parts, hca_list_includes-AnyNames}
use hip_object.State.Options.{Options, parse_options}
use hip_object.State.Init.{World, HipObjConfig, answers, hip_obj_init}
use hip_object.State.Init.Laws.{Initializes, hip_obj_init-Initializes}
use hip_object.Minio.{Client, S3RdmaContext, rdma_get_with_retry}
use hip_object.Minio.Laws.{IsDownload, rdma_get_with_retry-IsDownload}
use hip_object.Examples.Transport.{verbs, build}
use hip_object.Examples.Api.{platform, state}

abbrev nic : List ℕ → List ℕ → NicInfo
nic name bus = record { dev_name = name; pcie_bus_id = bus; numa_node = pos 0; port_num = 1 }

abbrev nics : List NicInfo
nics =
    nic (codes "mlx5_0") (codes "0000:81:00.0")
    ∷ nic (codes "mlx5_1") (codes "0000:41:00.0")
    ∷ nic (codes "mlx5_2") (codes "0000:41:00.1")
    ∷ []

abbrev gpu_bus : List ℕ
gpu_bus = codes "0000:42:00.0"

chosen : closest_of gpu_bus nics ≡ some (record { index = 1; name = codes "mlx5_1" })
unfolding closest_of
chosen = refl

closest_of-IsFirstLeast_example :
    (best : NicInfo) × (codes "mlx5_1" ≡ best.dev_name)
    × ((get_bus_id_distance best.pcie_bus_id gpu_bus == int_max) ≡ false)
    × IsFirstLeast (λ n. get_bus_id_distance n.pcie_bus_id gpu_bus) nics (best, 1)
closest_of-IsFirstLeast_example =
    closest_of-IsFirstLeast gpu_bus nics (record { index = 1; name = codes "mlx5_1" }) chosen

hca_list_includes-AnyNames_example :
    (hca_list_loop (length (codes "mlx5_0, mlx5_1") + 1) (codes "mlx5_0, mlx5_1") (codes "mlx5_1")
      ≡ some (hca_list_includes (codes "mlx5_0, mlx5_1") (codes "mlx5_1")))
    × ((hca_list_includes (codes "mlx5_0, mlx5_1") (codes "mlx5_1") ≡ true)
        ↔ AnyNames (codes "mlx5_1") (comma_parts (codes "mlx5_0, mlx5_1")))
hca_list_includes-AnyNames_example =
    hca_list_includes-AnyNames (codes "mlx5_0, mlx5_1") (codes "mlx5_1")

-- A host with one NIC, whose first port is active.
abbrev devices : Devices
devices = record {
  get_device_list = some (some 1 ∷ []);
  get_device_name = λ dev. some (codes "mlx5_0");
  open_device = λ dev. some 2;
  alloc_pd = λ ctx. some 3;
  query_device = λ ctx. some (record { vendor_id = 0x14e4; phys_port_cnt = 1 });
  query_port = λ ctx port. some (record { is_active = true; gid_tbl_len = 1 });
  query_gid = λ ctx port index. some (replicate 16 1);
  context_name = λ ctx. codes "mlx5_0";
  bus_id_of = λ name. some (codes "0000:41:00.0");
  numa_node_of = λ name. none;
  roce_line_of = λ name port index. some (codes "RoCE v2");
}

abbrev pub world : World
world = record {
  devices = devices;
  runtime = record {
    get_device = answers (pos 0);
    get_device_count = answers (pos 1);
    device_get_pci_bus_id = λ gpu. some gpu_bus;
  };
  verbs = verbs;
  build = build;
}

abbrev pub options : Options
options = parse_options (λ name. none)

abbrev config : HipObjConfig
config = record { flags = 0; gpu_device = pos 0; nic_hint = none }

hip_obj_init-Initializes_example :
    Initializes options none (hip_obj_init (some world) options (some config) none [])
hip_obj_init-Initializes_example =
    hip_obj_init-Initializes (some world) options (some config) none []

-- A server that answers each download with its first 64 bytes.
abbrev pub client : Client
client = record {
  put = λ s token. (none, s);
  get = λ s token. (
    some (record {
      error = [];
      status_code = 206;
      etag = [];
      amz_rdma_reply = codes "206";
      checksum = [];
      bytes_transferred = some (codes "64");
    }),
    s,
  );
  trim = λ text. text;
}

abbrev context : S3RdmaContext
context = record { upload_id = []; part_number = 0; checksum = []; etag = [] }

rdma_get_with_retry-IsDownload_example :
    IsDownload platform client 4096 256 (rdma_get_with_retry platform client 4096 256 context state)
rdma_get_with_retry-IsDownload_example =
    rdma_get_with_retry-IsDownload platform client 4096 256 context state
