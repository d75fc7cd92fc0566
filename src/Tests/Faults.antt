-- ===== src/Tests/Faults.antt =====
-- Copies between buffers that no vector routine can serve.
use hlfs.Common.{◌≡◌, none, arith}
use hlfs.Aep.Fault.{by_load_store_flush, vector_copy, vector_copy-faults}
use hlfs.Tests.Copies.{demo}

-- The source lies 8 bytes further into a register.
vector_copy-faults_example : vector_copy by_load_store_flush 4128 8200 31 demo ≡ none
vector_copy-faults_example =
    vector_copy-faults 4128 8200 (λ e. omega (arith, e)) by_load_store_flush 31 demo (omega arith)
