-- ===== src/Minio/Stats.antt =====
-- integrations/minio-cpp/src/client.cpp: how the transfers went out.
use hip_object.Prelude.{ℕ, ◌+◌, ◌%◌, ◌^◌, List, [], ◌++◌, codes}
use hip_object.Token.Reply.{emit_digits}

-- `TransferStats`, and the process-wide counters: unsigned numbers of 64 bits.
pub record TransferStats : Type 0 where
  pub rdma_puts : ℕ
  pub rdma_gets : ℕ
  pub http_puts : ℕ
  pub http_gets : ℕ
  pub rdma_bytes : ℕ
  pub http_bytes : ℕ

-- `fetch_add`
abbrev pub fetch_add : ℕ → ℕ → ℕ
fetch_add n k = (n + k) % 2 ^ 64

unfoldable pub count_rdma_put : ℕ → TransferStats → TransferStats
count_rdma_put n s = record s {
  rdma_puts = fetch_add s.rdma_puts 1;
  rdma_bytes = fetch_add s.rdma_bytes n;
}

unfoldable pub count_rdma_get : ℕ → TransferStats → TransferStats
count_rdma_get n s = record s {
  rdma_gets = fetch_add s.rdma_gets 1;
  rdma_bytes = fetch_add s.rdma_bytes n;
}

unfoldable pub count_http_put : ℕ → TransferStats → TransferStats
count_http_put n s = record s {
  http_puts = fetch_add s.http_puts 1;
  http_bytes = fetch_add s.http_bytes n;
}

unfoldable pub count_http_get : ℕ → TransferStats → TransferStats
count_http_get n s = record s {
  http_gets = fetch_add s.http_gets 1;
  http_bytes = fetch_add s.http_bytes n;
}

-- `TransferStatsReset`
abbrev pub no_transfers : TransferStats
no_transfers = record {
  rdma_puts = 0;
  rdma_gets = 0;
  http_puts = 0;
  http_gets = 0;
  rdma_bytes = 0;
  http_bytes = 0;
}

-- A number of 64 bits has 20 digits at most.
abbrev digits : ℕ → List ℕ
digits n = emit_digits 20 n []

-- `TransferStatsLine`
unfoldable pub transfer_stats_line : TransferStats → List ℕ
unfolding emit_digits
transfer_stats_line s =
    codes "hipobj-stats: rdma_put="
    ++ (digits s.rdma_puts
        ++ (codes " rdma_get="
            ++ (digits s.rdma_gets
                ++ (codes " http_put="
                    ++ (digits s.http_puts
                        ++ (codes " http_get="
                            ++ (digits s.http_gets
                                ++ (codes " rdma_bytes="
                                    ++ (digits s.rdma_bytes
                                        ++ (codes " http_bytes=" ++ digits s.http_bytes))))))))))
