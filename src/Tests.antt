-- ===== src/Tests.antt =====
-- Runs of the theorems at concrete values, by component; the values that several of them use.
pub mod PeerRuns
pub mod SenderRuns
pub mod ManagerRuns
pub mod RepositoryRuns
pub mod ParMapRuns
pub mod UtilRuns
pub mod SupervisorRuns
pub mod FileWriterRuns
pub mod SupervisorBuilds
pub mod RecordsRuns
pub mod ImporterRuns
pub mod PipelineRuns
pub mod CollectorRuns
pub mod DeliveryRuns
use passive_bitcoin.Prelude.{String, [], ◌∷◌}
use passive_bitcoin.Net.{TcpAddr, Ip}
use passive_bitcoin.ParMap.{Stringer}

-- A text is its own text.
instance pub text_stringer : Stringer String
text_stringer = record { string = λ s. s }

abbrev pub remote_ip : Ip
remote_ip = 203 ∷ 0 ∷ 113 ∷ 7 ∷ []

abbrev pub local_ip : Ip
local_ip = 10 ∷ 0 ∷ 0 ∷ 2 ∷ []

abbrev pub remote : TcpAddr
remote = record { ip = remote_ip; port = 18333 }

abbrev pub local : TcpAddr
local = record { ip = local_ip; port = 50123 }
